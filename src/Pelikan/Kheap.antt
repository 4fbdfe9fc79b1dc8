-- ===== src/Pelikan/Kheap.antt =====
-- pelikanOS/src/heap.c: the allocator of the kernel. The headers are a function of the address, so
-- that two headers that overlap without being at one address do not disturb each other; address 0 is
-- the null pointer. The printing is left out. `hlt` waits for an interrupt and then goes on.
pub mod Cells
pub mod Memory
pub mod Fit
pub mod Scan
pub mod Grow
pub mod Alloc
pub mod FromFrame
pub mod Serve
pub mod Exhausted
pub mod Exclusive
pub mod Splice
pub mod Join
pub mod Free
pub mod NextStep
pub mod JoinBack
pub mod Kfree
mod Tests
use systems_programming_proj.Prelude.{
  ℕ, zero, suc, ◌+◌, ◌-◌, ◌%◌, ◌^◌, Bool, true, false, ◌&&◌, not, Option, none, some, List, ltb,
  leb, ◌==◌, if◌then◌else◌,
}
use systems_programming_proj.Pelikan.Pmm.{pmm_alloc_frame}

pub record Header : Type 0 where
  pub size : ℕ
  pub free : ℕ
  pub magic : ℕ
  pub next : ℕ
  pub prev : ℕ

-- `sizeof(block_t)`
abbrev pub header_size : ℕ
header_size = 20

abbrev pub frame_payload : ℕ
frame_payload = 4076

abbrev pub magic_alloc : ℕ
magic_alloc = 0xDEADBEEF

abbrev pub magic_free : ℕ
magic_free = 0xFEEEFEEE

abbrev pub Memory : Type 0
Memory = ℕ → Header

unfoldable pub write : ℕ → (Header → Header) → Memory → Memory
write p f m q = if p == q then f (m q) else m q

-- The list's head, the headers, and the bitmap of the frames.
pub record KernelHeap : Type 0 where
  pub head : ℕ
  pub blocks : Memory
  pub frames : List ℕ

-- An address so many bytes on.
abbrev pub offset : ℕ → ℕ → ℕ
offset p n = (p + n) % 2 ^ 32

abbrev pub frame_block : ℕ → Header
frame_block last = record {
  size = frame_payload;
  free = 1;
  magic = magic_free;
  next = 0;
  prev = last;
}

abbrev pub with_next : ℕ → Header → Header
with_next n b = record b { next = n }

abbrev pub with_prev : ℕ → Header → Header
with_prev n b = record b { prev = n }

abbrev pub link_last : (last raw : ℕ) → Memory → Memory
link_last last raw m = if last == 0 then m else write last (with_next raw) m

-- What `request_space` does with the answer of `pmm_alloc_frame`; `none` when it halts for ever.
unfoldable pub use_frame : ℕ → KernelHeap → ℕ × List ℕ → Option (ℕ × KernelHeap)
use_frame last h (raw, frames) =
    if raw == 0
    then none
    else some (
      raw,
      record h {
        blocks = link_last last raw (write raw (λ b. frame_block last) h.blocks);
        frames = frames;
      },
    )

unfoldable pub request_space : ℕ → KernelHeap → Option (ℕ × KernelHeap)
request_space last h = use_frame last h (pmm_alloc_frame h.frames)

abbrev pub taken : Header → Header
taken b = record b { free = 0; magic = magic_alloc }

abbrev pub rest_block : (size p : ℕ) → Header → Header
rest_block size p b = record {
  size = (b.size - size) - header_size;
  free = 1;
  magic = magic_free;
  next = b.next;
  prev = p;
}

abbrev pub cut : (size new_block : ℕ) → Header → Header
cut size new_block b = record b { size = size; free = 0; next = new_block; magic = magic_alloc }

unfoldable pub split_block : (size p : ℕ) → Memory → Memory
split_block size p m =
    let new_block = offset p (header_size + size) in
    write p (cut size new_block) (write new_block (λ b. rest_block size p (m p)) m)

-- The tests on one block of the search; `none` when the search goes on.
unfoldable pub try_block : (size p : ℕ) → Memory → Option Memory
try_block size p m =
    if (m p).free == 1
    then (if (m p).size == size
        then some (write p taken m)
        else if leb (size + header_size + 1) (m p).size
        then some (split_block size p m)
        else if ltb size (m p).size
        then some (write p taken m)
        else none)
    else none

-- How a call ends: it returns a pointer, it halts for ever, or the fuel was too little.
pub data Outcome : Type 0 where
  returns : ℕ → KernelHeap → Outcome
  halts : Outcome
  unfinished : Outcome

-- The two nested loops of `kmalloc`.
unfoldable pub search : (fuel size current last : ℕ) → KernelHeap → Outcome
search zero size current last h = unfinished
search (suc fuel) size current last h = elim (current == 0) [
  | true ↦ (elim (request_space last h) [
    | none ↦ halts
    | some (block, h') ↦ search fuel size block last h'
  ])
  | false ↦ (elim (try_block size current h.blocks) [
    | none ↦ search fuel size (h.blocks current).next current h
    | some m ↦ returns (offset current header_size) (record h { blocks = m })
  ])
]

unfoldable pub start : (fuel size : ℕ) → KernelHeap → Outcome
start fuel size h = elim (h.head == 0) [
  | true ↦ (elim (request_space 0 h) [
    | none ↦ halts
    | some (block, h') ↦ search fuel size block 0 (record h' { head = block })
  ])
  | false ↦ search fuel size h.head 0 h
]

unfoldable pub kmalloc : (fuel size : ℕ) → KernelHeap → Outcome
kmalloc fuel size h =
    if size == 0
    then returns 0 h
    else if ltb frame_payload size
    then returns 0 h
    else start fuel size h

abbrev pub released : Header → Header
released b = record b { free = 1; magic = magic_free }

-- Block `p` takes in block `q`, which the caller found free and adjacent.
unfoldable pub absorb : (p q : ℕ) → Memory → Memory
absorb p q m =
    let next = (m q).next in
    let grown : Header → Header =
      λ b. record b { size = b.size + header_size + (m q).size; next = next } in
    let merged = write p grown m in if next == 0 then merged else write next (with_prev p) merged

-- `q` is a free block that begins where `p` ends.
abbrev pub follows : (p q : ℕ) → Memory → Bool
follows p q m = (m q).free == 1 && (offset p (header_size + (m p).size) == q)

unfoldable pub coalesce_next : ℕ → Memory → Memory
coalesce_next block m =
    let next = (m block).next in
    if not (next == 0) && follows block next m then absorb block next m else m

abbrev pub ends_at : (p q : ℕ) → Memory → Bool
ends_at p q m = (m p).free == 1 && (offset p (header_size + (m p).size) == q)

unfoldable pub coalesce_prev : ℕ → Memory → Memory
coalesce_prev block m =
    let prev = (m block).prev in
    if not (prev == 0) && ends_at prev block m then absorb prev block m else m

-- A foreign pointer and a second release halt until the next interrupt, and are then carried out.
unfoldable pub kfree : ℕ → KernelHeap → KernelHeap
kfree ptr h =
    let block = (ptr + (2 ^ 32 - header_size)) % 2 ^ 32 in
    if ptr == 0 then h else record h {
      blocks = coalesce_prev block (coalesce_next block (write block released h.blocks));
    }
