-- ===== src/Pelikan/Kheap/Splice.antt =====
-- Two neighbours in the block list of pelikanOS/src/heap.c, and the list with one in their place.
use systems_programming_proj.Prelude.{
  ℕ, ◌+◌, ◌*◌, ◌≤◌, List, [], ◌∷◌, ◌++◌, ◌≡◌, refl, ap, ◌∙◌, ◌≢◌, inl, inr, ◌==◌, leb, Bool-cases,
  arith,
}
use systems_programming_proj.Pelikan.Kheap.{Header, header_size, Memory, write, with_prev}
use systems_programming_proj.Pelikan.Kheap.Cells.{Cell, cell, end, ClearOf, Apart}
use systems_programming_proj.Pelikan.Kheap.Memory.{Lists, Below, Lists-from, Shows-same}
use systems_programming_proj.Pelikan.Kheap.Grow.{InUse}

-- A block and the one behind it, with the header between them.
abbrev pub join : Cell → Cell → Cell
join a b = cell a.addr (a.size + header_size + b.size) a.used

module _ (a b : Cell) (adjacent : end a ≡ b.addr) where
  join-ClearOf :
      (d : Cell) (pre post : List Cell)
      → ClearOf d (pre ++ a ∷ b ∷ post)
      → ClearOf d (pre ++ join a b ∷ post)
  join-ClearOf d [] post h = (
    elim (h.0) [
      | inl x ↦ inl (omega (arith, x))
      | inr x ↦ elim (h.1.0) [
        | inl y ↦ absurd (omega (arith, x, y, adjacent))
        | inr y ↦ inr (omega (arith, y, adjacent))
      ]
    ],
    h.1.1,
  )
  join-ClearOf d (c ∷ pre) post h = (h.0, join-ClearOf d pre post h.1)

  joined_clear : (post : List Cell) → ClearOf a post → ClearOf b post → ClearOf (join a b) post
  joined_clear [] ha hb = tt
  joined_clear (d ∷ ds) ha hb = (
    elim (ha.0) [
      | inl x ↦ elim (hb.0) [
        | inl y ↦ inl (omega (arith, y, adjacent))
        | inr y ↦ absurd (omega (arith, x, y, adjacent))
      ]
      | inr x ↦ inr (omega (arith, x))
    ],
    joined_clear ds ha.1 hb.1,
  )

  pub join-Apart :
      (pre post : List Cell) → Apart (pre ++ a ∷ b ∷ post) → Apart (pre ++ join a b ∷ post)
  join-Apart [] post h = (joined_clear post h.0.1 h.1.0, h.1.1)
  join-Apart (c ∷ pre) post h = (join-ClearOf c pre post h.0, join-Apart pre post h.1)

  pub join-Below :
      (n : ℕ) (pre post : List Cell)
      → Below n (pre ++ a ∷ b ∷ post)
      → Below n (pre ++ join a b ∷ post)
  join-Below n [] post h = (omega (arith, h.1.0, adjacent), h.1.1)
  join-Below n (c ∷ pre) post h = (h.0, join-Below n pre post h.1)

  pub join-InUse :
      (m : List ℕ) (pre post : List Cell)
      → InUse m (pre ++ a ∷ b ∷ post)
      → InUse m (pre ++ join a b ∷ post)
  join-InUse m [] post h = (
    λ g lo hi. elim (Bool-cases (leb (end a) (g * 4096))) [
      | inl e ↦
          let behind : end a ≤ g * 4096 = ground (arith, e) in
          h.1.0 g (omega (arith, behind, adjacent)) (omega (arith, hi, adjacent))
      | inr e ↦ h.0 g lo (ground (arith, e))
    ],
    h.1.1,
  )
  join-InUse m (c ∷ pre) post h = (h.0, join-InUse m pre post h.1)

pub ClearOf-ne :
    (c : Cell) (pre : List Cell) (a : Cell) (post : List Cell)
    → ClearOf c (pre ++ a ∷ post)
    → a.addr ≢ c.addr
ClearOf-ne c [] a post h e = elim (h.0) [
  | inl x ↦ omega (arith, x, e)
  | inr x ↦ omega (arith, x, e)
]
ClearOf-ne c (d ∷ pre) a post h e = ClearOf-ne c pre a post h.1 e

-- One block of the list is replaced, and only its header is written.
pub Lists-splice :
    (m m' : Memory) (p : ℕ) (pre : List Cell) (a : Cell) (post rest : List Cell)
    → ((q : ℕ) → a.addr ≢ q → m' q ≡ m q)
    → Apart (pre ++ a ∷ post)
    → Lists m p (pre ++ a ∷ post)
    → Lists m' a.addr rest
    → Lists m' p (pre ++ rest)
Lists-splice m m' p [] a post rest keeps apart h there = Lists-from m' p a.addr rest h.0 there
Lists-splice m m' p (c ∷ pre) a post rest keeps apart h there =
    let ne : a.addr ≢ c.addr = ClearOf-ne c pre a post apart.0 in
    let same = keeps c.addr ne in
    (
      h.0,
      (
        h.1.0,
        (
          Shows-same _ _ c same h.1.1.0,
          Lists-from m' _ _ (pre ++ rest) (ap (λ u. u.next) same)
              (Lists-splice m m' (m c.addr).next pre a post rest keeps apart.1 h.1.1.1 there),
        ),
      ),
    )

-- The part of the list from a block on.
pub Lists-drop :
    (m : Memory) (p : ℕ) (pre : List Cell) (a : Cell) (post : List Cell)
    → Lists m p (pre ++ a ∷ post)
    → Lists m a.addr (a ∷ post)
Lists-drop m p [] a post h = (refl, h.1)
Lists-drop m p (c ∷ pre) a post h = Lists-drop m (m c.addr).next pre a post h.1.1.1

pub Apart-drop : (pre rest : List Cell) → Apart (pre ++ rest) → Apart rest
Apart-drop [] rest h = h
Apart-drop (c ∷ pre) rest h = Apart-drop pre rest h.1

-- Two memories whose headers differ in the `prev` links only.
abbrev SameBut : Header → Header → Type 0
SameBut b b' =
    (b'.size ≡ b.size) × ((b'.free ≡ b.free) × ((b'.magic ≡ b.magic) × (b'.next ≡ b.next)))

with_prev-SameBut : (m : Memory) (t v q : ℕ) → SameBut (m q) (write t (with_prev v) m q)
unfolding write
with_prev-SameBut m t v q = elim (Bool-cases (t == q)) [
  | inl e ↦ rw e (refl, (refl, (refl, refl)))
  | inr e ↦ rw e (refl, (refl, (refl, refl)))
]

-- A `prev` link is no part of the list.
pub Lists-with_prev :
    (m : Memory) (t v p : ℕ) (cs : List Cell) → Lists m p cs → Lists (write t (with_prev v) m) p cs
Lists-with_prev m t v p [] h = h
Lists-with_prev m t v p (c ∷ cs) h =
    let rest = Lists-with_prev m t v (m c.addr).next cs h.1.1.1 in
    let (size, (free, (magic, next))) = with_prev-SameBut m t v c.addr in
    (
      h.0,
      (
        h.1.0,
        (
          record {
            size = size ∙ h.1.1.0.size;
            free = free ∙ h.1.1.0.free;
            magic = magic ∙ h.1.1.0.magic;
          },
          Lists-from _ _ _ cs next rest,
        ),
      ),
    )
