-- ===== src/Pelikan/Pmm.antt =====
-- pelikanOS/src/pmm.c: the bitmap of physical frames, one bit for a frame, set while it is used.
pub mod Bits
pub mod Alloc
pub mod Fresh
pub mod Ranges
pub mod Contiguous
pub mod Spans
pub mod Init
use systems_programming_proj.Prelude.{
  ℕ, zero, suc, ◌+◌, ◌-◌, ◌*◌, ◌/◌, ◌%◌, ◌^◌, Bool, true, false, not, Option, none, some, List, [],
  ◌∷◌, get_or, set, replicate, ltb, leb, ◌||◌, ◌==◌, if◌then◌else◌,
}
use Prim.Native.Nat.{bit_and, bit_or}

abbrev pub max_frames : ℕ
max_frames = 32768

abbrev pub bitmap_size : ℕ
bitmap_size = 4096

-- `b & (1 << k)`, `b | (1 << k)` and `b & ~(1 << k)`
unfoldable pub has_bit : ℕ → ℕ → Bool
has_bit b k = not (bit_and b (2 ^ k) == 0)

unfoldable pub set_bit : ℕ → ℕ → ℕ
set_bit b k = bit_or b (2 ^ k)

unfoldable pub clear_bit : ℕ → ℕ → ℕ
clear_bit b k = bit_and b (0xffffffff - 2 ^ k)

unfoldable pub is_used : ℕ → List ℕ → Bool
is_used f bitmap = has_bit (get_or bitmap (f / 8) 0) (f % 8)

unfoldable pub mark : ℕ → List ℕ → List ℕ
mark f bitmap = set bitmap (f / 8) (set_bit (get_or bitmap (f / 8) 0) (f % 8))

unfoldable pub unmark : ℕ → List ℕ → List ℕ
unmark f bitmap = set bitmap (f / 8) (clear_bit (get_or bitmap (f / 8) 0) (f % 8))

abbrev pub no_frame : ℕ
no_frame = 0xffffffff

-- The loop of `pmm_alloc_frame` from a frame on, over the frames that remain.
unfoldable pub alloc_from : ℕ → ℕ → List ℕ → ℕ × List ℕ
alloc_from zero frame bitmap = (no_frame, bitmap)
alloc_from (suc remaining) frame bitmap =
    let rest = alloc_from remaining (suc frame) bitmap in
    if not (is_used frame bitmap) then (frame * 4096, mark frame bitmap) else rest

unfoldable pub pmm_alloc_frame : List ℕ → ℕ × List ℕ
pmm_alloc_frame bitmap = alloc_from max_frames 0 bitmap

-- A frame that lies behind the bitmap is written outside the array: `none`.
unfoldable pub pmm_free_frame : ℕ → List ℕ → Option (List ℕ)
pmm_free_frame frame_addr bitmap =
    let frame_num = frame_addr / 4096 in
    if ltb (frame_num / 8) bitmap_size then some (unmark frame_num bitmap) else none

-- The window of `pmm_alloc_contiguous`: its first and last frame when it has the length.
unfoldable pub window : ℕ → ℕ → ℕ → ℕ → List ℕ → Option (ℕ × ℕ)
window zero n start end bitmap = none
window (suc remaining) n start end bitmap =
    let grown = window remaining n start (suc end) bitmap in
    let restarted = window remaining n (suc end) (suc end) bitmap in
    if not (is_used end bitmap)
    then (if (end - start) + 1 == n then some (start, end) else grown)
    else restarted

-- A loop over consecutive frames: as many as counted, from one on.
unfoldable pub mark_range : ℕ → ℕ → List ℕ → List ℕ
mark_range zero frame bitmap = bitmap
mark_range (suc count) frame bitmap = mark_range count (suc frame) (mark frame bitmap)

unfoldable pub unmark_range : ℕ → ℕ → List ℕ → List ℕ
unmark_range zero frame bitmap = bitmap
unmark_range (suc count) frame bitmap = unmark_range count (suc frame) (unmark frame bitmap)

unfoldable pub pmm_alloc_contiguous : ℕ → List ℕ → ℕ × List ℕ
pmm_alloc_contiguous n bitmap = elim (window max_frames n 0 0 bitmap) [
  | none ↦ (no_frame, bitmap)
  | some (start, end) ↦ (start * 4096, mark_range ((end - start) + 1) start bitmap)
]

unfoldable pub free_from : ℕ → ℕ → List ℕ → ℕ
free_from zero frame bitmap = 0
free_from (suc remaining) frame bitmap =
    let rest = free_from remaining (suc frame) bitmap in
    if not (is_used frame bitmap) then suc rest else rest

unfoldable pub pmm_free_count : List ℕ → ℕ
pmm_free_count bitmap = free_from max_frames 0 bitmap

-- An entry of the boot loader's memory map, without the size that leads to the next one.
pub record MmapEntry : Type 0 where
  pub addr : ℕ
  pub len : ℕ
  pub type : ℕ

abbrev pub start_frame : MmapEntry → ℕ
start_frame entry = entry.addr / 4096 % 2 ^ 32

abbrev pub end_frame : MmapEntry → ℕ
end_frame entry = (entry.addr + entry.len) % 2 ^ 64 / 4096 % 2 ^ 32

-- A range of frames that the loop would take past the bitmap is written outside it: `none`.
abbrev pub in_bitmap : (first last : ℕ) → List ℕ → Option (List ℕ)
in_bitmap first last bitmap = if leb last max_frames || leb last first then some bitmap else none

-- The walk through the memory map. The subtraction stops at 0, where the loop makes no round.
unfoldable pub free_entry : MmapEntry → List ℕ → Option (List ℕ)
free_entry entry bitmap =
    if entry.type == 1
    then in_bitmap (start_frame entry) (end_frame entry)
        (unmark_range (end_frame entry - start_frame entry) (start_frame entry) bitmap)
    else some bitmap

unfoldable pub free_entries : List MmapEntry → List ℕ → Option (List ℕ)
free_entries [] bitmap = some bitmap
free_entries (entry ∷ entries) bitmap = elim (free_entry entry bitmap) [
  | none ↦ none
  | some freed ↦ free_entries entries freed
]

-- `_kernel_start` and `_kernel_end` come from the linker.
abbrev pub kernel_first : ℕ → ℕ
kernel_first kernel_start = kernel_start / 4096

abbrev pub kernel_last : ℕ → ℕ
kernel_last kernel_end = (kernel_end + 4095) % 2 ^ 32 / 4096

-- The bitmap before is lost: `memset` fills all of it.
unfoldable pub pmm_init : (kernel_start kernel_end : ℕ) → List MmapEntry → Option (List ℕ)
pmm_init kernel_start kernel_end entries =
    elim (free_entries entries (replicate bitmap_size 0xff)) [
      | none ↦ none
      | some freed ↦
          let first = kernel_first kernel_start in
          let last = kernel_last kernel_end in
          in_bitmap first last (mark_range (last - first) first (mark_range 256 0 freed))
    ]
