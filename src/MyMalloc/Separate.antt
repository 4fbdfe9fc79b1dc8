-- ===== src/MyMalloc/Separate.antt =====
-- The blocks of my_malloc/src/my_malloc.c do not overlap.
use systems_programming_proj.Prelude.{
  ℕ, ◌+◌, ◌-◌, ◌%◌, ◌^◌, ◌<◌, ◌≤◌, true, false, Option, none, some, List, [], ◌∷◌, ◌++◌, ◌≡◌, refl,
  ap, ◌≢◌, ◌⊎◌, inl, inr, ◌==◌, Bool-cases, arith,
}
use systems_programming_proj.MyMalloc.{
  MallocBlock, block_size, Heap, Sbrk, new_block, link, my_malloc, mark_free, my_free,
}

-- Where a block ends, its header and its bytes included.
abbrev pub end_of : MallocBlock → ℕ
end_of b = (b.addr + block_size) + b.size

-- The blocks lie one behind the other from an address on, up to the break.
abbrev pub Ascending : ℕ → List MallocBlock → ℕ → Type 0
Ascending low [] brk = low ≤ brk
Ascending low (b ∷ blocks) brk = (low ≤ b.addr) × Ascending (end_of b) blocks brk

-- What sbrk promises for an increment that is not negative as an `intptr_t`: the memory it gives
-- lies between the old break and the new one.
pub record Grows (sbrk : Sbrk) : Type 0 where
  pub gives :
      (n brk raw brk' : ℕ)
      → n < 2 ^ 63
      → sbrk n brk ≡ some (raw, brk')
      → (brk ≤ raw) × (raw + n ≤ brk')

Ascending-append :
    (low raw size brk brk' : ℕ) (blocks : List MallocBlock)
    → brk ≤ raw
    → (raw + block_size) + size ≤ brk'
    → Ascending low blocks brk
    → Ascending low (blocks ++ new_block raw size ∷ []) brk'
Ascending-append low raw size brk brk' [] le fits h = (omega arith, fits)
Ascending-append low raw size brk brk' (b ∷ blocks) le fits h =
    (h.0, Ascending-append (end_of b) raw size brk brk' blocks le fits h.1)

-- What a call answers: null and the heap as it was, or memory behind every block there is.
pub data Gives (size : ℕ) (heap : Heap) : Option ℕ × Heap → Type 0 where
  refused : Gives size heap (none, heap)
  given :
      (raw brk' : ℕ)
      → heap.brk ≤ raw
      → (raw + block_size) + size ≤ brk'
      → Gives size heap (
        some (raw + block_size),
        record { blocks = heap.blocks ++ new_block raw size ∷ []; brk = brk' },
      )

link-Gives :
    (size : ℕ) (heap : Heap) (o : Option (ℕ × ℕ))
    → ((raw brk' : ℕ)
        → o ≡ some (raw, brk')
        → (heap.brk ≤ raw) × ((raw + block_size) + size ≤ brk'))
    → Gives size heap (link size heap.brk heap.blocks o)
unfolding link
link-Gives size heap none h = refused
link-Gives size heap (some (raw, brk')) h =
    let (above, fits) = h raw brk' refl in given raw brk' above fits

my_malloc-Gives :
    (sbrk : Sbrk) (size : ℕ) (heap : Heap)
    → Grows sbrk
    → size + block_size < 2 ^ 63
    → Gives size heap (my_malloc sbrk size heap)
unfolding my_malloc
my_malloc-Gives sbrk size heap grows small = elim (Bool-cases (size == 0)) [
  | inl e ↦ simp (e) refused
  | inr e ↦
      let n = (block_size + size) % 2 ^ 64 in
      let same : n ≡ block_size + size = omega (arith, small) in
      simp (e) (
        link-Gives size heap (sbrk n heap.brk) (λ raw brk' eq.
          let (above, fits) = grows.gives n heap.brk raw brk' (omega (arith, small, same)) eq in
          (above, omega (arith, fits, same))))
]

after-Ascending :
    (low size : ℕ) (heap : Heap) (o : Option ℕ × Heap)
    → Gives size heap o
    → Ascending low heap.blocks heap.brk
    → Ascending low o.1.blocks o.1.brk
after-Ascending low size heap o refused h = h
after-Ascending low size heap o (given raw brk' le fits) h =
    Ascending-append low raw size heap.brk brk' heap.blocks le fits h

-- `my_malloc` for a size below 2^63 less the header, with an sbrk that keeps its promise: it returns
-- null and changes nothing, or it returns the bytes behind the header of a new block that lies behind
-- the old break and holds the size asked for; and if the blocks were laid out one behind the other
-- below the break, so that no two overlap, they still are.
pub my_malloc-Ascending :
    (sbrk : Sbrk) (low size : ℕ) (heap : Heap)
    → Grows sbrk
    → size + block_size < 2 ^ 63
    → Ascending low heap.blocks heap.brk
    → Gives size heap (my_malloc sbrk size heap)
      × Ascending low (my_malloc sbrk size heap).1.blocks (my_malloc sbrk size heap).1.brk
my_malloc-Ascending sbrk low size heap grows small h =
    let gives = my_malloc-Gives sbrk size heap grows small in
    (gives, after-Ascending low size heap _ gives h)

-- A block begins there.
abbrev pub Begins : ℕ → List MallocBlock → Type 0
Begins addr [] = ⊥
Begins addr (b ∷ blocks) = (b.addr ≡ addr) ⊎ Begins addr blocks

-- Where the blocks are, and their sizes.
abbrev pub layout : List MallocBlock → List (ℕ × ℕ)
layout [] = []
layout (b ∷ blocks) = (b.addr, b.size) ∷ layout blocks

abbrev Marks : ℕ → List MallocBlock → Type 0
Marks addr blocks =
    (marked : List MallocBlock) × ((mark_free addr blocks ≡ some marked)
      × (layout marked ≡ layout blocks))

mark_free-Marks : (addr : ℕ) (blocks : List MallocBlock) → Begins addr blocks → Marks addr blocks
unfolding mark_free
mark_free-Marks addr [] there = absurd there
mark_free-Marks addr (b ∷ blocks) there = elim (Bool-cases (b.addr == addr)) [
  | inl e ↦ (record b { free = true } ∷ blocks, (simp (e) refl, refl))
  | inr e ↦ elim there [
    | inl here ↦ let ne : b.addr ≢ addr = ground (arith, e) in absurd (ne here)
    | inr later ↦
        let (marked, (eq, same)) = mark_free-Marks addr blocks later in
        (b ∷ marked, (simp (e, eq) refl, ap (λ l. (b.addr, b.size) ∷ l) same))
  ]
]

-- `my_free` of the bytes of a block, whose header begins `block_size` before them, succeeds; it
-- leaves every block where it is, with its size, and the break as it was.
pub my_free-layout :
    (ptr : ℕ) (heap : Heap)
    → ptr ≢ 0
    → Begins (ptr - block_size) heap.blocks
    → (heap' : Heap) × ((my_free ptr heap ≡ some heap')
        × ((heap'.brk ≡ heap.brk) × (layout heap'.blocks ≡ layout heap.blocks)))
unfolding my_free
my_free-layout ptr heap nonnull there =
    let e : (ptr == 0) ≡ false = ground (arith, nonnull) in
    let (marked, (eq, same)) = mark_free-Marks (ptr - block_size) heap.blocks there in
    (record { blocks = marked; brk = heap.brk }, (simp (e, eq) refl, (refl, same)))
