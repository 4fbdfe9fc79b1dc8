-- ===== src/Pelikan/Kheap/Join.antt =====
-- Two neighbouring blocks of pelikanOS/src/heap.c become one: the list and the headers.
use mathlib.Core.Path.{subst}
use systems_programming_proj.Prelude.{
  ℕ, ◌+◌, true, false, List, [], ◌∷◌, ◌++◌, ◌≡◌, refl, sym, ap, ◌∙◌, ◌≢◌, inl, inr, ◌==◌, ==_iff,
  Bool-cases, arith,
}
use systems_programming_proj.Pelikan.Kheap.{Header, header_size, Memory, write, with_prev, absorb}
use systems_programming_proj.Pelikan.Kheap.Cells.{Cell, Apart}
use systems_programming_proj.Pelikan.Kheap.Memory.{
  Lists, write_self, write_other, Lists-from, Lists-write, ClearOf-Outside,
}
use systems_programming_proj.Pelikan.Kheap.Splice.{
  join, ClearOf-ne, Lists-splice, Lists-drop, Apart-drop, Lists-with_prev,
}

-- `absorb` on two neighbours of the list.
abbrev grown_block : (m : Memory) (q : ℕ) → Header → Header
grown_block m q b = record b { size = b.size + header_size + (m q).size; next = (m q).next }

absorb_null : (p q : ℕ) (m : Memory) → (m q).next ≡ 0 → absorb p q m ≡ write p (grown_block m q) m
unfolding absorb
absorb_null p q m null =
    let e : ((m q).next == 0) ≡ true = (==_iff (m q).next 0).1 null in rw e refl

absorb_linked :
    (p q : ℕ) (m : Memory)
    → (m q).next ≢ 0
    → absorb p q m ≡ write (m q).next (with_prev p) (write p (grown_block m q) m)
unfolding absorb
absorb_linked p q m ne = let e : ((m q).next == 0) ≡ false = ground (arith, ne) in rw e refl

merged-Lists :
    (m : Memory) (p : ℕ) (pre : List Cell) (a b : Cell) (post : List Cell)
    → Apart (pre ++ a ∷ b ∷ post)
    → Lists m p (pre ++ a ∷ b ∷ post)
    → Lists (write a.addr (grown_block m b.addr) m) p (pre ++ join a b ∷ post)
merged-Lists m p pre a b post apart h =
    let f = grown_block m b.addr in
    let from_a = Lists-drop m p pre a (b ∷ post) h in
    let from_b = from_a.1.1.1 in
    let clear = Apart-drop pre (a ∷ b ∷ post) apart in
    let self = write_self a.addr f m in
    let size : (m a.addr).size + header_size + (m b.addr).size ≡ a.size + header_size + b.size =
      omega (arith, from_a.1.1.0.size, from_b.1.1.0.size) in
    Lists-splice m (write a.addr f m) p pre a (b ∷ post) (join a b ∷ post)
      (λ q ne. write_other a.addr q f m ne) apart h
      (
        refl,
        (
          from_a.1.0,
          (
            record {
              size = ap (λ u. u.size) self ∙ size;
              free = ap (λ u. u.free) self ∙ from_a.1.1.0.free;
              magic = ap (λ u. u.magic) self ∙ from_a.1.1.0.magic;
            },
            Lists-from _ _ _ post (ap (λ u. u.next) self) (
                Lists-write m (m b.addr).next post a.addr f
                  (ClearOf-Outside a a.addr post (omega arith) (omega arith) clear.0.1) clear.1.1
                  from_b.1.1.1),
          ),
        ),
      )

-- A block of the list takes in the one behind it.
pub absorb-Lists :
    (m : Memory) (p : ℕ) (pre : List Cell) (a b : Cell) (post : List Cell)
    → Apart (pre ++ a ∷ b ∷ post)
    → Lists m p (pre ++ a ∷ b ∷ post)
    → Lists (absorb a.addr b.addr m) p (pre ++ join a b ∷ post)
absorb-Lists m p pre a b post apart h =
    let merged = merged-Lists m p pre a b post apart h in
    let l = pre ++ join a b ∷ post in
    elim (Bool-cases ((m b.addr).next == 0)) [
      | inl e ↦
          subst (λ i. Lists i p l) (sym (absorb_null a.addr b.addr m ((==_iff _ 0).0 e))) merged
      | inr e ↦
          subst (λ i. Lists i p l) (sym (absorb_linked a.addr b.addr m (ground (arith, e))))
            (Lists-with_prev _ (m b.addr).next a.addr p l merged)
    ]

-- The absorbing block keeps its own `prev` link.
pub absorb-prev :
    (m : Memory) (a b : Cell) (post : List Cell)
    → Apart (a ∷ b ∷ post)
    → Lists m a.addr (a ∷ b ∷ post)
    → (absorb a.addr b.addr m a.addr).prev ≡ (m a.addr).prev
absorb-prev m a b [] apart h =
    ap (λ i. (i a.addr).prev) (absorb_null a.addr b.addr m h.1.1.1.1.1.1)
    ∙ ap (λ u. u.prev) (write_self a.addr (grown_block m b.addr) m)
absorb-prev m a b (c ∷ post) apart h =
    let next : (m b.addr).next ≡ c.addr = h.1.1.1.1.1.1.0 in
    let nonnull = h.1.1.1.1.1.1.1.0 in
    let ne : (m b.addr).next ≢ a.addr = λ e. ClearOf-ne a [] c post apart.0.1 (sym next ∙ e) in
    ap (λ i. (i a.addr).prev) (absorb_linked a.addr b.addr m (λ null. nonnull (sym next ∙ null)))
    ∙ (ap (λ u. u.prev) (write_other (m b.addr).next a.addr (with_prev a.addr) _ ne)
        ∙ ap (λ u. u.prev) (write_self a.addr (grown_block m b.addr) m))
