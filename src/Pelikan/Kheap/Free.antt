-- ===== src/Pelikan/Kheap/Free.antt =====
-- `kfree` of pelikanOS/src/heap.c: a block is released and joined with its free neighbours.
use systems_programming_proj.Prelude.{
  ℕ, ◌^◌, Bool, true, false, ◌&&◌, not, List, [], ◌∷◌, ◌++◌, ◌≡◌, refl, ap, ◌∙◌, ◌≢◌, ◌⊎◌, inl, inr,
  ◌==◌, Bool-cases, arith,
}
use systems_programming_proj.Pelikan.Kheap.{Memory, write, released}
use systems_programming_proj.Pelikan.Kheap.Cells.{Cell, cell, end, ClearOf, Apart}
use systems_programming_proj.Pelikan.Kheap.Memory.{
  mark_of, Lists, Below, write_self, write_other, Lists-from, Lists-write, ClearOf-Outside,
}
use systems_programming_proj.Pelikan.Kheap.Grow.{InUse}
use systems_programming_proj.Pelikan.Kheap.Splice.{
  join, join-Apart, join-Below, join-InUse, Lists-splice, Lists-drop, Apart-drop,
}

-- What the invariant says of the list alone.
pub record Sound (m : List ℕ) (cells : List Cell) : Type 0 where
  pub apart : Apart cells
  pub low : Below (2 ^ 27) cells
  pub backed : InUse m cells

abbrev pub freed : Cell → Cell
freed c = cell c.addr c.size false

freed-ClearOf :
    (d : Cell) (pre : List Cell) (c : Cell) (post : List Cell)
    → ClearOf d (pre ++ c ∷ post)
    → ClearOf d (pre ++ freed c ∷ post)
freed-ClearOf d [] c post h = h
freed-ClearOf d (e ∷ pre) c post h = (h.0, freed-ClearOf d pre c post h.1)

pub freed-Sound :
    (m : List ℕ) (pre : List Cell) (c : Cell) (post : List Cell)
    → Sound m (pre ++ c ∷ post)
    → Sound m (pre ++ freed c ∷ post)
freed-Sound m [] c post h = record { apart = h.apart; low = h.low; backed = h.backed }
freed-Sound m (d ∷ pre) c post h =
    let rest =
      freed-Sound m pre c post (record { apart = h.apart.1; low = h.low.1; backed = h.backed.1 }) in
    record {
      apart = (freed-ClearOf d pre c post h.apart.0, rest.apart);
      low = (h.low.0, rest.low);
      backed = (h.backed.0, rest.backed);
    }

pub join-Sound :
    (m : List ℕ) (pre : List Cell) (a b : Cell) (post : List Cell)
    → end a ≡ b.addr
    → Sound m (pre ++ a ∷ b ∷ post)
    → Sound m (pre ++ join a b ∷ post)
join-Sound m pre a b post e h = record {
  apart = join-Apart a b e pre post h.apart;
  low = join-Below a b e (2 ^ 27) pre post h.low;
  backed = join-InUse a b e m pre post h.backed;
}

-- The released block takes in the next one exactly when that is free and begins where it ends.
pub data NextJoin (c : Cell) : List Cell → Cell → List Cell → Type 0 where
  last_block : NextJoin c [] c []
  next_joined :
      {d : Cell} {ds : List Cell}
      → d.used ≡ false
      → end c ≡ d.addr
      → NextJoin c (d ∷ ds) (join c d) ds
  next_kept :
      {d : Cell} {ds : List Cell}
      → (d.used ≡ true) ⊎ (end c ≢ d.addr)
      → NextJoin c (d ∷ ds) c (d ∷ ds)

-- The same with the block before, whose list it then joins.
pub data PrevJoin (c : Cell) : List Cell → List Cell → Type 0 where
  first_block : PrevJoin c [] (c ∷ [])
  prev_joined :
      (pre : List Cell) (b : Cell)
      → b.used ≡ false
      → end b ≡ c.addr
      → PrevJoin c (pre ++ b ∷ []) (pre ++ join b c ∷ [])
  prev_kept :
      (pre : List Cell) (b : Cell)
      → (b.used ≡ true) ⊎ (end b ≢ c.addr)
      → PrevJoin c (pre ++ b ∷ []) (pre ++ b ∷ c ∷ [])

pub release-Lists :
    (m : Memory) (p : ℕ) (pre : List Cell) (c : Cell) (post : List Cell)
    → Apart (pre ++ c ∷ post)
    → Lists m p (pre ++ c ∷ post)
    → Lists (write c.addr released m) p (pre ++ freed c ∷ post)
release-Lists m p pre c post apart h =
    let from_c = Lists-drop m p pre c post h in
    let clear = Apart-drop pre (c ∷ post) apart in
    let self = write_self c.addr released m in
    Lists-splice m (write c.addr released m) p pre c post (freed c ∷ post)
      (λ q ne. write_other c.addr q released m ne) apart h
      (
        refl,
        (
          from_c.1.0,
          (
            record {
              size = ap (λ u. u.size) self ∙ from_c.1.1.0.size;
              free = ap (λ u. u.free) self;
              magic = ap (λ u. u.magic) self;
            },
            Lists-from _ _ _ post (ap (λ u. u.next) self) (
                Lists-write m (m c.addr).next post c.addr released
                  (ClearOf-Outside c c.addr post (omega arith) (omega arith) clear.0) clear.1
                  from_c.1.1.1),
          ),
        ),
      )

pub test_true :
    (n free at q : ℕ)
    → (not (n == 0) && ((free == 1) && (at == q))) ≡ true
    → (n ≢ 0) × ((free ≡ 1) × (at ≡ q))
test_true n free at q e = (ground (arith, e), (ground (arith, e), ground (arith, e)))

pub test_false :
    (n free at q : ℕ)
    → n ≢ 0
    → (not (n == 0) && ((free == 1) && (at == q))) ≡ false
    → (free ≢ 1) ⊎ (at ≢ q)
test_false n free at q ne e = elim (Bool-cases (free == 1)) [
  | inl f ↦ inr (ground (arith, ne, e, f))
  | inr f ↦ inl (ground (arith, f))
]

pub used_free : (used : Bool) (free : ℕ) → free ≡ mark_of used → free ≡ 1 → used ≡ false
used_free true free e f = ground (arith, e, f)
used_free false free e f = refl

pub free_used : (used : Bool) (free : ℕ) → free ≡ mark_of used → free ≢ 1 → used ≡ true
free_used true free e f = refl
free_used false free e f = absurd (f e)
