-- ===== src/Pelikan/Kheap/Memory.antt =====
-- The headers in memory and the list of cells that they make, for pelikanOS/src/heap.c.
use systems_programming_proj.Prelude.{
  ℕ, ◌+◌, ◌<◌, ◌≤◌, ◌^◌, Bool, true, false, List, [], ◌∷◌, ◌≡◌, refl, ap, ◌∙◌, ◌≢◌, ◌⊎◌, inl, inr,
  ◌==◌, ==_iff, Bool-cases, arith,
}
use systems_programming_proj.Pelikan.Kheap.{Header, magic_alloc, magic_free, Memory, write, offset}
use systems_programming_proj.Pelikan.Kheap.Cells.{Cell, end, ClearOf, Apart}

pub write_self : (p : ℕ) (f : Header → Header) (m : Memory) → write p f m p ≡ f (m p)
unfolding write
write_self p f m = rw ((==_iff p p).1 refl) refl

pub write_other : (p q : ℕ) (f : Header → Header) (m : Memory) → p ≢ q → write p f m q ≡ m q
unfolding write
write_other p q f m ne = let e : (p == q) ≡ false = ground (arith, ne) in rw e refl

-- The mark and the stamp of a block that is in use, or is not.
abbrev pub mark_of : Bool → ℕ
mark_of true = 0
mark_of false = 1

abbrev pub stamp_of : Bool → ℕ
stamp_of true = magic_alloc
stamp_of false = magic_free

-- The header that stands for a cell.
pub record Shows (b : Header) (c : Cell) : Type 0 where
  pub size : b.size ≡ c.size
  pub free : b.free ≡ mark_of c.used
  pub magic : b.magic ≡ stamp_of c.used

-- The cells that the `next` links visit from an address on, up to the null pointer.
abbrev pub Lists : Memory → ℕ → List Cell → Type 0
Lists m p [] = p ≡ 0
Lists m p (c ∷ cs) =
    (p ≡ c.addr) × ((c.addr ≢ 0) × (Shows (m c.addr) c × Lists m (m c.addr).next cs))

-- The address is in no block of the list.
abbrev pub Outside : ℕ → List Cell → Type 0
Outside q [] = Unit
Outside q (c ∷ cs) = ((q < c.addr) ⊎ (end c ≤ q)) × Outside q cs

-- All blocks end below a bound.
abbrev pub Below : ℕ → List Cell → Type 0
Below n [] = Unit
Below n (c ∷ cs) = (end c ≤ n) × Below n cs

pub Lists-from : (m : Memory) (p q : ℕ) (cs : List Cell) → p ≡ q → Lists m q cs → Lists m p cs
Lists-from m p q [] e h = e ∙ h
Lists-from m p q (c ∷ cs) e h = (e ∙ h.0, h.1)

pub Shows-same : (b b' : Header) (c : Cell) → b' ≡ b → Shows b c → Shows b' c
Shows-same b b' c e h = record {
  size = ap (λ u. u.size) e ∙ h.size;
  free = ap (λ u. u.free) e ∙ h.free;
  magic = ap (λ u. u.magic) e ∙ h.magic;
}

-- Two memories that differ outside the blocks only.
pub Lists-same :
    (m m' : Memory) (p : ℕ) (cs : List Cell)
    → ((q : ℕ) → Outside q cs ⊎ (m' q ≡ m q))
    → Apart cs
    → Lists m p cs
    → Lists m' p cs
Lists-same m m' p [] same apart h = h
Lists-same m m' p (c ∷ cs) same apart h =
    let e : m' c.addr ≡ m c.addr = elim (same c.addr) [
      | inl out ↦ (elim (out.0) [ inl a ↦ absurd (omega arith) | inr b ↦ absurd (omega arith) ])
      | inr e ↦ e
    ] in
    (
      h.0,
      (
        h.1.0,
        (
          Shows-same (m c.addr) (m' c.addr) c e h.1.1.0,
          Lists-from m' _ _ cs (ap (λ u. u.next) e) (
              Lists-same m m' (m c.addr).next cs
                (λ q. elim (same q) [ inl out ↦ inl out.1 | inr e ↦ inr e ]) apart.1 h.1.1.1),
        ),
      ),
    )

subst-Outside : (t q : ℕ) (cs : List Cell) → t ≡ q → Outside t cs → Outside q cs
subst-Outside t q [] e out = tt
subst-Outside t q (c ∷ cs) e out = (
  (elim (out.0) [ inl a ↦ inl (omega (arith, e)) | inr b ↦ inr (omega (arith, e)) ]),
  subst-Outside t q cs e out.1,
)

-- A write outside the blocks.
pub Lists-write :
    (m : Memory) (p : ℕ) (cs : List Cell) (t : ℕ) (f : Header → Header)
    → Outside t cs
    → Apart cs
    → Lists m p cs
    → Lists (write t f m) p cs
Lists-write m p cs t f out apart h =
    Lists-same m (write t f m) p cs
      (λ q. elim (Bool-cases (t == q)) [
        | inl e ↦ inl (subst-Outside t q cs ((==_iff t q).0 e) out)
        | inr e ↦ inr (write_other t q f m (ground (arith, e)))
      ])
      apart h

-- An address of a block that is clear of the others.
pub ClearOf-Outside :
    (c : Cell) (q : ℕ) (cs : List Cell) → c.addr ≤ q → q < end c → ClearOf c cs → Outside q cs
ClearOf-Outside c q [] lo hi h = tt
ClearOf-Outside c q (d ∷ ds) lo hi h = (
  (elim (h.0) [ inl a ↦ inl (omega arith) | inr b ↦ inr (omega arith) ]),
  ClearOf-Outside c q ds lo hi h.1,
)

pub offset_below : (p n : ℕ) → p + n < 2 ^ 32 → offset p n ≡ p + n
offset_below p n lt = omega arith
