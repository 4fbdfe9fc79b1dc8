-- ===== src/Pelikan/Kheap/JoinBack.antt =====
-- The step of kfree in pelikanOS/src/heap.c that joins a block with the one before it.
use mathlib.Core.Path.{subst}
use systems_programming_proj.Prelude.{
  ℕ, ◌+◌, ◌^◌, Bool, true, false, List, [], ◌∷◌, ◌++◌, ◌≡◌, refl, sym, ap, ◌∙◌, ◌≢◌, ◌⊎◌, inl, inr,
  ◌==◌, ==_iff, Bool-cases, arith,
}
use systems_programming_proj.Pelikan.Kheap.{header_size, Memory, offset, absorb, coalesce_prev}
use systems_programming_proj.Pelikan.Kheap.Cells.{Cell, end}
use systems_programming_proj.Pelikan.Kheap.Memory.{Lists, mark_of, offset_below}
use systems_programming_proj.Pelikan.Kheap.Scan.{last_of}
use systems_programming_proj.Pelikan.Kheap.Join.{absorb-Lists}
use systems_programming_proj.Pelikan.Kheap.Splice.{join, Lists-drop}
use systems_programming_proj.Pelikan.Kheap.NextStep.{Below-drop, joins}
use systems_programming_proj.Pelikan.Kheap.Free.{
  Sound, join-Sound, PrevJoin, first_block, prev_joined, prev_kept, test_true, test_false,
  used_free, free_used,
}

abbrev prev_test : Memory → ℕ → Bool
prev_test m p =
    joins (m p).prev (m (m p).prev).free (offset (m p).prev (header_size + (m (m p).prev).size)) p

coalesce_prev-true :
    (m : Memory) (p : ℕ)
    → joins (m p).prev (m (m p).prev).free (offset (m p).prev (header_size + (m (m p).prev).size)) p
      ≡ true
    → coalesce_prev p m ≡ absorb (m p).prev p m
unfolding coalesce_prev
coalesce_prev-true m p e = rw e refl

coalesce_prev-false :
    (m : Memory) (p : ℕ)
    → joins (m p).prev (m (m p).prev).free (offset (m p).prev (header_size + (m (m p).prev).size)) p
      ≡ false
    → coalesce_prev p m ≡ m
unfolding coalesce_prev
coalesce_prev-false m p e = rw e refl

snoc_view : (l : List Cell) → (l ≡ []) ⊎ ((ps : List Cell) × ((b : Cell) × (l ≡ ps ++ b ∷ [])))
snoc_view [] = inl refl
snoc_view (c ∷ l) = elim (snoc_view l) [
  | inl e ↦ inr ([], (c, ap (λ i. c ∷ i) e))
  | inr (ps, (b, e)) ↦ inr (c ∷ ps, (b, ap (λ i. c ∷ i) e))
]

append_snoc : (ps : List Cell) (b : Cell) (l : List Cell) → (ps ++ b ∷ []) ++ l ≡ ps ++ b ∷ l
append_snoc [] b l = refl
append_snoc (c ∷ ps) b l = ap (λ i. c ∷ i) (append_snoc ps b l)

append_snoc2 :
    (ps : List Cell) (b c : Cell) (l : List Cell) → (ps ++ b ∷ c ∷ []) ++ l ≡ ps ++ b ∷ c ∷ l
append_snoc2 [] b c l = refl
append_snoc2 (d ∷ ps) b c l = ap (λ i. d ∷ i) (append_snoc2 ps b c l)

last_of-snoc : (last : ℕ) (ps : List Cell) (b : Cell) → last_of last (ps ++ b ∷ []) ≡ b.addr
last_of-snoc last [] b = refl
last_of-snoc last (c ∷ ps) b = last_of-snoc c.addr ps b

-- The state behind the second test.
pub record Joined (m' : Memory) (head : ℕ) (frames : List ℕ) (pre : List Cell) (c : Cell)
    (post : List Cell) : Type 0 where
  pub front : List Cell
  pub prev : PrevJoin c pre front
  pub lists : Lists m' head (front ++ post)
  pub sound : Sound frames (front ++ post)

module _ (head : ℕ) (frames : List ℕ) (m : Memory) (c : Cell) (post : List Cell) where
  first-Joined :
      Lists m head (c ∷ post)
      → Sound frames (c ∷ post)
      → (m c.addr).prev ≡ 0
      → Joined (coalesce_prev c.addr m) head frames [] c post
  first-Joined lists sound null =
      let e : ((m c.addr).prev == 0) ≡ true = (==_iff _ 0).1 null in
      let at_m : Joined m head frames [] c post = record {
        front = c ∷ [];
        prev = first_block;
        lists = lists;
        sound = sound;
      } in
      subst (λ i. Joined i head frames [] c post) (sym (coalesce_prev-false m c.addr (rw e refl)))
        at_m

  kept-Joined :
      (ps : List Cell) (b : Cell)
      → (b.used ≡ true) ⊎ (end b ≢ c.addr)
      → Lists m head (ps ++ b ∷ c ∷ post)
      → Sound frames (ps ++ b ∷ c ∷ post)
      → Joined m head frames (ps ++ b ∷ []) c post
  kept-Joined ps b apart lists sound =
      let e = append_snoc2 ps b c post in
      record {
        front = ps ++ b ∷ c ∷ [];
        prev = prev_kept ps b apart;
        lists = subst (Lists m head) (sym e) lists;
        sound = subst (Sound frames) (sym e) sound;
      }

  Joined-Joined :
      (ps : List Cell) (b : Cell)
      → b.used ≡ false
      → end b ≡ c.addr
      → Lists m head (ps ++ b ∷ c ∷ post)
      → Sound frames (ps ++ b ∷ c ∷ post)
      → Joined (absorb b.addr c.addr m) head frames (ps ++ b ∷ []) c post
  Joined-Joined ps b free adjacent lists sound =
      let e = append_snoc ps (join b c) post in
      record {
        front = ps ++ join b c ∷ [];
        prev = prev_joined ps b free adjacent;
        lists =
            subst (Lists (absorb b.addr c.addr m) head) (sym e)
              (absorb-Lists m head ps b c post sound.apart lists);
        sound = subst (Sound frames) (sym e) (join-Sound frames ps b c post adjacent sound);
      }

  linked-Joined :
      (ps : List Cell) (b : Cell)
      → Lists m head (ps ++ b ∷ c ∷ post)
      → Sound frames (ps ++ b ∷ c ∷ post)
      → (m c.addr).prev ≡ b.addr
      → Joined (coalesce_prev c.addr m) head frames (ps ++ b ∷ []) c post
  linked-Joined ps b lists sound prev =
      let from_b = Lists-drop m head ps b (c ∷ post) lists in
      let nonnull : (m c.addr).prev ≢ 0 = λ null. from_b.1.0 (sym prev ∙ null) in
      let shows = from_b.1.1.0 in
      let free : (m (m c.addr).prev).free ≡ mark_of b.used =
        ap (λ i. (m i).free) prev ∙ shows.free in
      let low = Below-drop (2 ^ 27) ps (b ∷ c ∷ post) sound.low in
      let at : offset (m c.addr).prev (header_size + (m (m c.addr).prev).size) ≡ end b =
        ap (λ i. offset i (header_size + (m i).size)) prev
        ∙ (offset_below b.addr (header_size + (m b.addr).size) (omega (arith, shows.size, low.0))
            ∙ omega (arith, shows.size)) in
      elim (Bool-cases (prev_test m c.addr)) [
        | inl e ↦
            let (_, (f, a)) = test_true _ _ _ _ e in
            subst (λ i. Joined i head frames (ps ++ b ∷ []) c post)
              (sym (coalesce_prev-true m c.addr e ∙ ap (λ i. absorb i c.addr m) prev))
              (Joined-Joined ps b (used_free b.used _ free f) (sym at ∙ a) lists sound)
        | inr e ↦
            subst (λ i. Joined i head frames (ps ++ b ∷ []) c post)
              (sym (coalesce_prev-false m c.addr e))
              (kept-Joined ps b
                (elim (test_false _ _ _ _ nonnull e) [
                  | inl f ↦ inl (free_used b.used _ free f)
                  | inr a ↦ inr (λ adj. a (at ∙ adj))
                ])
                lists sound)
      ]

  pub coalesce_prev-Joined :
      (pre : List Cell)
      → Lists m head (pre ++ c ∷ post)
      → Sound frames (pre ++ c ∷ post)
      → (m c.addr).prev ≡ last_of 0 pre
      → Joined (coalesce_prev c.addr m) head frames pre c post
  coalesce_prev-Joined pre lists sound prev = elim (snoc_view pre) [
    | inl e ↦
        subst (λ i. Joined (coalesce_prev c.addr m) head frames i c post) (sym e)
          (first-Joined (subst (λ i. Lists m head (i ++ c ∷ post)) e lists)
            (subst (λ i. Sound frames (i ++ c ∷ post)) e sound) (prev ∙ ap (last_of 0) e))
    | inr (ps, (b, e)) ↦
        let shape = ap (λ i. i ++ c ∷ post) e ∙ append_snoc ps b (c ∷ post) in
        subst (λ i. Joined (coalesce_prev c.addr m) head frames i c post) (sym e)
          (linked-Joined ps b (subst (Lists m head) shape lists) (subst (Sound frames) shape sound)
            (prev ∙ (ap (last_of 0) e ∙ last_of-snoc 0 ps b)))
  ]
