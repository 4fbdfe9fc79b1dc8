-- ===== src/Pelikan/Kheap/NextStep.antt =====
-- The first half of `kfree` of pelikanOS/src/heap.c: the block behind the released one.
use mathlib.Core.Path.{subst}
use systems_programming_proj.Prelude.{
  ℕ, ◌+◌, ◌^◌, Bool, true, false, ◌&&◌, not, List, [], ◌∷◌, ◌++◌, ◌≡◌, refl, sym, ap, ◌∙◌, ◌≢◌, inl,
  inr, ◌==◌, ==_iff, Bool-cases, arith,
}
use systems_programming_proj.Pelikan.Kheap.{header_size, Memory, offset, absorb, coalesce_next}
use systems_programming_proj.Pelikan.Kheap.Cells.{Cell, end}
use systems_programming_proj.Pelikan.Kheap.Memory.{Lists, mark_of, Below, offset_below}
use systems_programming_proj.Pelikan.Kheap.Join.{absorb-Lists, absorb-prev}
use systems_programming_proj.Pelikan.Kheap.Splice.{join, Lists-drop, Apart-drop}
use systems_programming_proj.Pelikan.Kheap.Free.{
  Sound, join-Sound, NextJoin, last_block, next_joined, next_kept, test_true, test_false, used_free,
  free_used,
}

pub Below-drop : (n : ℕ) (pre rest : List Cell) → Below n (pre ++ rest) → Below n rest
Below-drop n [] rest h = h
Below-drop n (c ∷ pre) rest h = Below-drop n pre rest h.1

-- The test of `coalesce_next` and of `coalesce_prev`.
abbrev pub joins : (n free at q : ℕ) → Bool
joins n free at q = not (n == 0) && ((free == 1) && (at == q))

abbrev next_test : Memory → ℕ → Bool
next_test m p =
    joins (m p).next (m (m p).next).free (offset p (header_size + (m p).size)) (m p).next

coalesce_next-true :
    (m : Memory) (p : ℕ)
    → joins (m p).next (m (m p).next).free (offset p (header_size + (m p).size)) (m p).next ≡ true
    → coalesce_next p m ≡ absorb p (m p).next m
unfolding coalesce_next
coalesce_next-true m p e = rw e refl

coalesce_next-false :
    (m : Memory) (p : ℕ)
    → joins (m p).next (m (m p).next).free (offset p (header_size + (m p).size)) (m p).next ≡ false
    → coalesce_next p m ≡ m
unfolding coalesce_next
coalesce_next-false m p e = rw e refl

-- The state between the two tests.
pub record Halfway (m' : Memory) (head : ℕ) (frames : List ℕ) (pre : List Cell) (c : Cell)
    (post : List Cell) (prev : ℕ) : Type 0 where
  pub c₁ : Cell
  pub post₁ : List Cell
  pub next : NextJoin c post c₁ post₁
  pub same_addr : c₁.addr ≡ c.addr
  pub unused : c₁.used ≡ false
  pub lists : Lists m' head (pre ++ c₁ ∷ post₁)
  pub sound : Sound frames (pre ++ c₁ ∷ post₁)
  pub prev_link : (m' c.addr).prev ≡ prev

module _ (head : ℕ) (frames : List ℕ) (pre : List Cell) (m : Memory) (c : Cell)
    (unused : c.used ≡ false) where
  kept-Halfway :
      (post : List Cell)
      → NextJoin c post c post
      → Lists m head (pre ++ c ∷ post)
      → Sound frames (pre ++ c ∷ post)
      → coalesce_next c.addr m ≡ m
      → Halfway (coalesce_next c.addr m) head frames pre c post (m c.addr).prev
  kept-Halfway post next lists sound e =
      let at_m : Halfway m head frames pre c post (m c.addr).prev = record {
        c₁ = c;
        post₁ = post;
        next = next;
        same_addr = refl;
        unused = unused;
        lists = lists;
        sound = sound;
        prev_link = refl;
      } in
      subst (λ i. Halfway i head frames pre c post (m c.addr).prev) (sym e) at_m

  joined-Halfway :
      (d : Cell) (ds : List Cell)
      → d.used ≡ false
      → end c ≡ d.addr
      → Lists m head (pre ++ c ∷ d ∷ ds)
      → Sound frames (pre ++ c ∷ d ∷ ds)
      → coalesce_next c.addr m ≡ absorb c.addr d.addr m
      → Halfway (coalesce_next c.addr m) head frames pre c (d ∷ ds) (m c.addr).prev
  joined-Halfway d ds free adjacent lists sound e =
      let after : Halfway (absorb c.addr d.addr m) head frames pre c (d ∷ ds) (m c.addr).prev =
        record {
          c₁ = join c d;
          post₁ = ds;
          next = next_joined free adjacent;
          same_addr = refl;
          unused = unused;
          lists = absorb-Lists m head pre c d ds sound.apart lists;
          sound = join-Sound frames pre c d ds adjacent sound;
          prev_link =
              absorb-prev m c d ds (Apart-drop pre (c ∷ d ∷ ds) sound.apart)
                (Lists-drop m head pre c (d ∷ ds) lists);
        } in
      subst (λ i. Halfway i head frames pre c (d ∷ ds) (m c.addr).prev) (sym e) after

  pub coalesce_next-Halfway :
      (post : List Cell)
      → Lists m head (pre ++ c ∷ post)
      → Sound frames (pre ++ c ∷ post)
      → Halfway (coalesce_next c.addr m) head frames pre c post (m c.addr).prev
  coalesce_next-Halfway [] lists sound =
      let from_c = Lists-drop m head pre c [] lists in
      let null : ((m c.addr).next == 0) ≡ true = (==_iff _ 0).1 from_c.1.1.1 in
      kept-Halfway [] last_block lists sound (coalesce_next-false m c.addr (rw null refl))
  coalesce_next-Halfway (d ∷ ds) lists sound =
      let from_c = Lists-drop m head pre c (d ∷ ds) lists in
      let next : (m c.addr).next ≡ d.addr = from_c.1.1.1.0 in
      let nonnull : (m c.addr).next ≢ 0 = λ null. from_c.1.1.1.1.0 (sym next ∙ null) in
      let shows = from_c.1.1.1.1.1.0 in
      let free : (m (m c.addr).next).free ≡ mark_of d.used =
        ap (λ i. (m i).free) next ∙ shows.free in
      let low = Below-drop (2 ^ 27) pre (c ∷ d ∷ ds) sound.low in
      let size = from_c.1.1.0.size in
      let at : offset c.addr (header_size + (m c.addr).size) ≡ end c =
        offset_below c.addr (header_size + (m c.addr).size) (omega (arith, size, low.0))
        ∙ omega (arith, size) in
      elim (Bool-cases (next_test m c.addr)) [
        | inl e ↦
            let (_, (f, a)) = test_true _ _ _ _ e in
            joined-Halfway d ds (used_free d.used _ free f) (sym at ∙ (a ∙ next)) lists sound
              (coalesce_next-true m c.addr e ∙ ap (λ i. absorb c.addr i m) next)
        | inr e ↦
            kept-Halfway (d ∷ ds)
              (next_kept (elim (test_false _ _ _ _ nonnull e) [
                | inl f ↦ inl (free_used d.used _ free f)
                | inr a ↦ inr (λ adj. a (at ∙ (adj ∙ sym next)))
              ]))
              lists sound (coalesce_next-false m c.addr e)
      ]
