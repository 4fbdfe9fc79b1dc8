-- ===== src/Pelikan/Ring/Remove.antt =====
-- `remove_task_from_circular_list` of pelikanOS/src/scheduler.c.
use mathlib.Core.Path.{subst}
use systems_programming_proj.Prelude.{ℕ, List, [], ◌∷◌, ◌++◌, ◌≡◌, sym, ap, ◌∙◌, ◌≢◌}
use systems_programming_proj.Pelikan.Tasks.{Store}
use systems_programming_proj.Pelikan.Tasks.Chain.{Absent, Distinct}
use systems_programming_proj.Pelikan.Tasks.Queue.{Distinct-append}
use systems_programming_proj.Pelikan.Ring.{remove_task_from_circular_list}
use systems_programming_proj.Pelikan.Ring.Insert.{Rings, empty_ring, ring}
use systems_programming_proj.Pelikan.Ring.Paths.{
  end_of, end_of-differs, IsRing, sources, sources-end, sources-Absent, IsPath-same, IsPath-append,
  IsPath-split, IsPath-join, end_of-append, Absent-split, Distinct-split, Distinct-drop,
  head-Absent, end-Absent, end-Absent_rest,
}
use systems_programming_proj.Pelikan.Ring.Unlinked.{
  alone-removed, remove-next_p, remove-prev_n, remove-next_other, remove-prev_other, removed,
  removed_last,
}

-- The tasks before `t` of the ring, and those behind it, of which there are some.
middle-IsRing :
    (s s' : Store) (t last : ℕ) (pre : List ℕ) (n : ℕ) (post : List ℕ)
    → ((y : ℕ) → end_of last pre ≢ y → t ≢ y → (s' y).next ≡ (s y).next)
    → ((y : ℕ) → n ≢ y → t ≢ y → (s' y).prev ≡ (s y).prev)
    → (s' (end_of last pre)).next ≡ n
    → (s' n).prev ≡ end_of last pre
    → end_of n post ≡ last
    → Absent (end_of last pre) (sources n post)
    → IsRing s last (pre ++ t ∷ n ∷ post)
    → IsRing s' last (pre ++ n ∷ post)
middle-IsRing s s' t last pre n post nexts prevs next prev e left h =
    let (front, (_, (_, back))) = IsPath-split s last pre t (n ∷ post) h.path in
    let d = h.distinct in
    let shorter = Distinct-drop pre t (n ∷ post) d in
    let (d_pre, d_rest) = Distinct-split pre (t ∷ n ∷ post) d in
    let t_last : t ≢ last = λ f. end_of-differs t n post d_rest.0 (f ∙ sym e) in
    let last_pre : Absent last pre = subst (λ i. Absent i pre) e (end-Absent pre n post shorter) in
    record {
      path =
          IsPath-join s' last pre n post
            (IsPath-same s s' t (end_of last pre) n last pre nexts prevs
              (t_last, head-Absent pre t (n ∷ post) d) (sources-end last pre (last_pre, d_pre))
              (head-Absent pre n post shorter) front)
            next prev
            (IsPath-same s s' t (end_of last pre) n n post nexts prevs d_rest.0 left d_rest.1.0
              back.1.1);
      last_end = end_of-append 0 n pre post ∙ e;
      distinct = shorter;
      nonnull = h.nonnull;
    }

-- The end of the part before `t` is no inner task of the part behind it.
left_of :
    (last t n : ℕ) (pre post : List ℕ)
    → end_of n post ≡ last
    → Distinct (pre ++ t ∷ n ∷ post)
    → Absent (end_of last pre) (sources n post)
left_of last t n [] post e d = subst (λ i. Absent i (sources n post)) e (sources-end n post d.1)
left_of last t n (x ∷ pre) post e d =
    sources-Absent (end_of x pre) n post (end-Absent_rest x pre (t ∷ n ∷ post) d).1

end-neq :
    (last t n : ℕ) (pre post : List ℕ)
    → end_of n post ≡ last
    → Distinct (pre ++ t ∷ n ∷ post)
    → end_of last pre ≢ t
end-neq last t n [] post e d f = end_of-differs t n post d.0 (sym f ∙ sym e)
end-neq last t n (x ∷ pre) post e d f = (end-Absent_rest x pre (t ∷ n ∷ post) d).0 f

-- The last task of the ring is removed, and the first one becomes the last.
last-IsRing :
    (s s' : Store) (t x : ℕ) (xs : List ℕ)
    → ((y : ℕ) → end_of x xs ≢ y → t ≢ y → (s' y).next ≡ (s y).next)
    → ((y : ℕ) → x ≢ y → t ≢ y → (s' y).prev ≡ (s y).prev)
    → (s' (end_of x xs)).next ≡ x
    → (s' x).prev ≡ end_of x xs
    → x ≢ 0
    → IsRing s t (x ∷ xs ++ t ∷ [])
    → IsRing s' x (xs ++ x ∷ [])
last-IsRing s s' t x xs nexts prevs next prev nonnull h =
    let (front, _) = IsPath-split s x xs t [] h.path.1.1 in
    let (d, _) = Distinct-split (x ∷ xs) (t ∷ []) h.distinct in
    let out = head-Absent (x ∷ xs) t [] h.distinct in
    record {
      path =
          IsPath-append s' x x xs
            (IsPath-same s s' t (end_of x xs) x x xs nexts prevs out (sources-end x xs d) d.0 front)
            next prev;
      last_end = end_of-append 0 x xs [];
      distinct = Distinct-append x xs d.0 d.1;
      nonnull = nonnull;
    }

Rings-of :
    (s : Store) (last : ℕ) (pre : List ℕ) (n : ℕ) (post : List ℕ)
    → IsRing s last (pre ++ n ∷ post)
    → Rings s last (pre ++ n ∷ post)
Rings-of s last [] n post h = ring h
Rings-of s last (x ∷ pre) n post h = ring h

rotated :
    (s : Store) (t x : ℕ) (xs : List ℕ)
    → IsRing s t (x ∷ xs ++ t ∷ [])
    → Absent 0 (x ∷ xs ++ t ∷ [])
    → Rings
        (remove_task_from_circular_list t t s).1
        (remove_task_from_circular_list t t s).0
        (xs ++ x ∷ [])
rotated s t x xs h nonnull =
    let (_, (next, (prev, _))) = IsPath-split s x xs t [] h.path.1.1 in
    let p = end_of x xs in
    let nn : x ≢ t = λ f. (Absent-split x xs (t ∷ []) h.distinct.0).1.0 f in
    let np : p ≢ t = (end-Absent_rest x xs (t ∷ []) h.distinct).0 in
    let first = h.path.0 in
    subst (λ o. Rings o.1 o.0 (xs ++ x ∷ [])) (sym (removed_last s t p x np nn prev first))
      (Rings-of _ x xs x [] (
        last-IsRing s _ t x xs (remove-next_other s t p x np nn prev first)
          (remove-prev_other s t p x np nn prev first) (remove-next_p s t p x np nn prev first)
          (remove-prev_n s t p x np nn prev first) (λ f. nonnull.0 (sym f)) h))

-- The tasks that stay: those behind the removed one follow those before it; when the removed one was
-- the last of the ring, the first one is the last now.
abbrev pub without : List ℕ → List ℕ → List ℕ
without pre (n ∷ post) = pre ++ n ∷ post
without [] [] = []
without (x ∷ pre) [] = pre ++ x ∷ []

-- `remove_task_from_circular_list` of any task of a ring whose tasks are not null: the ring holds the
-- others, linked both ways, in their order around the ring; `last_inserted` is null if there are none,
-- and if it named the task that is removed it names the one that was behind it.
pub remove_task_from_circular_list-Rings :
    (s : Store) (t last : ℕ) (pre post : List ℕ)
    → IsRing s last (pre ++ t ∷ post)
    → Absent 0 (pre ++ t ∷ post)
    → Rings
        (remove_task_from_circular_list t last s).1
        (remove_task_from_circular_list t last s).0
        (without pre post)
remove_task_from_circular_list-Rings s t last pre (n ∷ post) h nonnull =
    let (_, (_, (prev, back))) = IsPath-split s last pre t (n ∷ post) h.path in
    let e : end_of n post ≡ last = sym (end_of-append 0 t pre (n ∷ post)) ∙ h.last_end in
    let d_rest = (Distinct-split pre (t ∷ n ∷ post) h.distinct).1 in
    let p = end_of last pre in
    let np = end-neq last t n pre post e h.distinct in
    let nn : n ≢ t = λ f. d_rest.0.0 (sym f) in
    let ne : last ≢ t = λ f. end_of-differs t n post d_rest.0 (sym f ∙ sym e) in
    subst (λ o. Rings o.1 o.0 (pre ++ n ∷ post)) (sym (removed s t p n np nn prev back.0 last ne))
      (Rings-of _ _ pre n post (
        middle-IsRing s _ t last pre n post (remove-next_other s t p n np nn prev back.0)
          (remove-prev_other s t p n np nn prev back.0) (remove-next_p s t p n np nn prev back.0)
          (remove-prev_n s t p n np nn prev back.0) e (left_of last t n pre post e h.distinct) h))
remove_task_from_circular_list-Rings s t last (x ∷ xs) [] h nonnull =
    subst
      (λ i.
        Rings (remove_task_from_circular_list t i s).1 (remove_task_from_circular_list t i s).0
          (xs ++ x ∷ []))
      (sym (end_of-append 0 t (x ∷ xs) []) ∙ h.last_end)
      (rotated s t x xs
        (subst (λ i. IsRing s i (x ∷ xs ++ t ∷ []))
          (sym (sym (end_of-append 0 t (x ∷ xs) []) ∙ h.last_end)) h)
        nonnull)
remove_task_from_circular_list-Rings s t last [] [] h nonnull =
    subst
      (λ i.
        Rings (remove_task_from_circular_list t i s).1 (remove_task_from_circular_list t i s).0 [])
      h.last_end
      (subst (λ i. Rings (remove_task_from_circular_list t t s).1 i [])
        (sym (alone-removed s t (ap (λ i. (s i).next) h.last_end ∙ h.path.0))) empty_ring)
