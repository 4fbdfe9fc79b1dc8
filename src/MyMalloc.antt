-- ===== src/MyMalloc.antt =====
-- my_malloc/src/my_malloc.c: an allocator that asks sbrk for each block and keeps the blocks in a
-- list. The list is that of the blocks in the order of their `next` links.
pub mod Separate
mod Tests
use systems_programming_proj.Prelude.{
  ℕ, ◌+◌, ◌-◌, ◌%◌, ◌^◌, Bool, true, false, Option, none, some, List, [], ◌∷◌, ◌++◌, ◌==◌,
  if◌then◌else◌,
}

pub record MallocBlock : Type 0 where
  pub addr : ℕ
  pub size : ℕ
  pub free : Bool

-- `sizeof(block_t)` with pointers of 64 bits.
abbrev pub block_size : ℕ
block_size = 24

-- The blocks, and the program break, which is the kernel's.
pub record Heap : Type 0 where
  pub blocks : List MallocBlock
  pub brk : ℕ

-- `sbrk`, with the increment and the break: the address it returns and the new break, or -1.
abbrev pub Sbrk : Type 0
Sbrk = ℕ → ℕ → Option (ℕ × ℕ)

abbrev pub new_block : (raw size : ℕ) → MallocBlock
new_block raw size = record { addr = raw; size = size; free = false }

unfoldable pub link : (size brk : ℕ) → List MallocBlock → Option (ℕ × ℕ) → Option ℕ × Heap
link size brk blocks none = (none, record { blocks = blocks; brk = brk })
link size brk blocks (some (raw, brk')) =
    (some (raw + block_size), record { blocks = blocks ++ new_block raw size ∷ []; brk = brk' })

-- The sum is one of `size_t`.
unfoldable pub my_malloc : Sbrk → ℕ → Heap → Option ℕ × Heap
my_malloc sbrk size heap =
    if size == 0
    then (none, heap)
    else link size heap.brk heap.blocks (sbrk ((block_size + size) % 2 ^ 64) heap.brk)

-- The header before the pointer is marked. A pointer to no block is written all the same: `none`.
unfoldable pub mark_free : ℕ → List MallocBlock → Option (List MallocBlock)
mark_free addr [] = none
mark_free addr (b ∷ blocks) =
    let rest = mark_free addr blocks in
    if b.addr == addr
    then some (record b { free = true } ∷ blocks)
    else (elim rest [ none ↦ none | some marked ↦ some (b ∷ marked) ])

-- The null pointer is 0.
unfoldable pub my_free : ℕ → Heap → Option Heap
my_free ptr heap =
    if ptr == 0 then some heap else (elim (mark_free (ptr - block_size) heap.blocks) [
      | none ↦ none
      | some blocks ↦ some (record { blocks = blocks; brk = heap.brk })
    ])
