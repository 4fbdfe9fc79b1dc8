-- ===== src/Pelikan/Kheap/Fit.antt =====
-- One block in the search of `kmalloc` in pelikanOS/src/heap.c.
use systems_programming_proj.Prelude.{
  ℕ, ◌+◌, ◌-◌, ◌<◌, ◌≤◌, ◌^◌, true, false, none, some, List, [], ◌∷◌, ◌++◌, ◌≡◌, refl, sym, ap, ◌∙◌,
  ◌≢◌, ◌⊎◌, inl, inr, ◌==◌, ==_iff, ltb, leb, Bool-cases, arith,
}
use systems_programming_proj.Pelikan.Kheap.{
  Header, header_size, Memory, write, offset, taken, rest_block, cut, split_block, try_block,
}
use systems_programming_proj.Pelikan.Kheap.Cells.{
  Cell, cell, end, ClearOf, Apart, Carves, whole, front,
}
use systems_programming_proj.Pelikan.Kheap.Memory.{
  mark_of, Shows, Lists, write_self, write_other, Lists-from, Lists-write, ClearOf-Outside,
  offset_below,
}

-- The memory after a block has been carved: the list with the pieces, and nothing else written.
pub record Carved (size : ℕ) (m : Memory) (c : Cell) (cs : List Cell) (m' : Memory) : Type 0 where
  pub piece : List Cell
  pub carves : Carves size c piece
  pub lists : Lists m' c.addr (piece ++ cs)
  pub keeps : (q : ℕ) → (q < c.addr) ⊎ (end c ≤ q) → m' q ≡ m q

outside_ne : (c : Cell) (q : ℕ) → (q < c.addr) ⊎ (end c ≤ q) → c.addr ≢ q
outside_ne c q (inl a) e = omega (arith, e)
outside_ne c q (inr b) e = omega (arith, e)

whole-Carved :
    (size : ℕ) (m : Memory) (c : Cell) (cs : List Cell)
    → c.size ≤ size + header_size
    → ClearOf c cs
    → Apart cs
    → Lists m c.addr (c ∷ cs)
    → Carved size m c cs (write c.addr taken m)
whole-Carved size m c cs small clear apart h =
    let p = c.addr in
    let self = write_self p taken m in
    record {
      piece = cell p c.size true ∷ [];
      carves = whole small;
      lists = (
        refl,
        (
          h.1.0,
          (
            record {
              size = ap (λ u. u.size) self ∙ h.1.1.0.size;
              free = ap (λ u. u.free) self;
              magic = ap (λ u. u.magic) self;
            },
            Lists-write m (write p taken m p).next cs p taken
                (ClearOf-Outside c p cs (omega arith) (omega arith) clear) apart
                (Lists-from m _ _ cs (ap (λ u. u.next) self) h.1.1.1),
          ),
        ),
      );
      keeps = λ q out. write_other p q taken m (outside_ne c q out);
    }

-- The front part is given and the rest becomes a block of its own behind it.
front-Carved :
    (size : ℕ) (m : Memory) (c : Cell) (cs : List Cell)
    → size + header_size < c.size
    → end c ≤ 2 ^ 27
    → ClearOf c cs
    → Apart cs
    → Lists m c.addr (c ∷ cs)
    → Carved size m c cs (split_block size c.addr m)
unfolding split_block
front-Carved size m c cs room low clear apart h =
    let p = c.addr in
    let n = offset p (header_size + size) in
    let at : n ≡ p + (header_size + size) = offset_below p (header_size + size) (omega arith) in
    let rest = λ (b : Header). rest_block size p (m p) in
    let m₁ = write n rest m in
    let f = cut size n in
    let m₂ = write p f m₁ in
    let self = write_self p f m₁ in
    let p_ne : p ≢ n = λ e. omega (arith, at, e) in
    let new : m₂ n ≡ rest_block size p (m p) = write_other p n f m₁ p_ne ∙ write_self n rest m in
    let left = cell (p + (header_size + size)) ((c.size - size) - header_size) false in
    let new' : m₂ left.addr ≡ rest_block size p (m p) = ap (λ i. m₂ i) (sym at) ∙ new in
    let tail : Lists m₂ (m p).next cs =
      Lists-write m₁ (m p).next cs p f (ClearOf-Outside c p cs (omega arith) (omega arith) clear)
        apart
        (Lists-write m (m p).next cs n rest
          (ClearOf-Outside c n cs (omega (arith, at)) (omega (arith, at)) clear) apart h.1.1.1) in
    record {
      piece = cell p size true ∷ left ∷ [];
      carves = front room;
      lists = (
        refl,
        (
          h.1.0,
          (
            record {
              size = ap (λ u. u.size) self;
              free = ap (λ u. u.free) self;
              magic = ap (λ u. u.magic) self;
            },
            (
              ap (λ u. u.next) self ∙ at,
              (
                λ e. omega (arith, e),
                (
                  record {
                    size = ap (λ u. u.size) new' ∙ ap (λ s. (s - size) - header_size) h.1.1.0.size;
                    free = ap (λ u. u.free) new';
                    magic = ap (λ u. u.magic) new';
                  },
                  Lists-from m₂ _ _ cs (ap (λ u. u.next) new') tail,
                ),
              ),
            ),
          ),
        ),
      );
      keeps = λ q out.
          write_other p q f m₁ (outside_ne c q out)
          ∙ write_other n q rest m
              (λ e. elim out [ inl a ↦ omega (arith, at, e, a) | inr b ↦ omega (arith, at, e, b) ]);
    }

-- What the tests of the search answer for a block with the header's fields.
try_used : (size p : ℕ) (m : Memory) → (m p).free ≡ 0 → try_block size p m ≡ none
unfolding try_block
try_used size p m used = simp (used) refl

try_small : (size p : ℕ) (m : Memory) → (m p).size < size → try_block size p m ≡ none
unfolding try_block
try_small size p m small =
    let exact : ((m p).size == size) ≡ false = ground arith in
    let big : leb (size + header_size + 1) (m p).size ≡ false = ground arith in
    let larger : ltb size (m p).size ≡ false = ground arith in
    elim (Bool-cases ((m p).free == 1)) [
      | inl e ↦ simp (e, exact, big, larger) refl
      | inr e ↦ simp (e) refl
    ]

pub try_whole :
    (size p : ℕ) (m : Memory)
    → (m p).free ≡ 1
    → size ≤ (m p).size
    → (m p).size ≤ size + header_size
    → try_block size p m ≡ some (write p taken m)
unfolding try_block
try_whole size p m free fits small =
    let is_free : ((m p).free == 1) ≡ true = (==_iff (m p).free 1).1 free in
    let big : leb (size + header_size + 1) (m p).size ≡ false = ground arith in
    elim (Bool-cases ((m p).size == size)) [
      | inl e ↦ simp (is_free, e) refl
      | inr e ↦
          let larger : ltb size (m p).size ≡ true = ground (arith, e) in
          simp (is_free, e, big, larger) refl
    ]

pub try_front :
    (size p : ℕ) (m : Memory)
    → (m p).free ≡ 1
    → size + header_size < (m p).size
    → try_block size p m ≡ some (split_block size p m)
unfolding try_block
try_front size p m free room =
    let is_free : ((m p).free == 1) ≡ true = (==_iff (m p).free 1).1 free in
    let exact : ((m p).size == size) ≡ false = ground arith in
    let big : leb (size + header_size + 1) (m p).size ≡ true = ground arith in
    simp (is_free, exact, big) refl

-- A block that is used or too small is passed over.
pub try_block-none :
    (size : ℕ) (m : Memory) (c : Cell)
    → Shows (m c.addr) c
    → (c.used ≡ true) ⊎ (c.size < size)
    → try_block size c.addr m ≡ none
try_block-none size m c shows (inl used) = try_used size c.addr m (shows.free ∙ ap mark_of used)
try_block-none size m c shows (inr small) =
    try_small size c.addr m (omega (arith, shows.size, small))

-- A free block that is large enough is carved.
pub try_block-Carved :
    (size : ℕ) (m : Memory) (c : Cell) (cs : List Cell)
    → c.used ≡ false
    → size ≤ c.size
    → end c ≤ 2 ^ 27
    → ClearOf c cs
    → Apart cs
    → Lists m c.addr (c ∷ cs)
    → (m' : Memory) × ((try_block size c.addr m ≡ some m') × Carved size m c cs m')
try_block-Carved size m c cs unused fits low clear apart h =
    let shows = h.1.1.0 in
    let free : (m c.addr).free ≡ 1 = shows.free ∙ ap mark_of unused in
    let e = shows.size in
    elim (Bool-cases (leb c.size (size + header_size))) [
      | inl small ↦
          let le : c.size ≤ size + header_size = ground (arith, small) in
          (
            write c.addr taken m,
            (
              try_whole size c.addr m free (omega (arith, e)) (omega (arith, e)),
              whole-Carved size m c cs le clear apart h,
            ),
          )
      | inr big ↦
          let room : size + header_size < c.size = ground (arith, big) in
          (
            split_block size c.addr m,
            (
              try_front size c.addr m free (omega (arith, e)),
              front-Carved size m c cs room low clear apart h,
            ),
          )
    ]
