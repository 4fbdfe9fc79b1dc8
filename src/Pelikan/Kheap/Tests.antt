-- ===== src/Pelikan/Kheap/Tests.antt =====
-- The heap of pelikanOS/src/heap.c at concrete states.
use systems_programming_proj.Prelude.{
  ℕ, ◌+◌, true, false, List, [], ◌∷◌, ◌≡◌, refl, ap, sym, ◌∙◌, ◌≢◌, inl, inr, replicate, ◌==◌,
  if◌then◌else◌, arith,
}
use systems_programming_proj.Pelikan.Pmm.{
  is_used, has_bit, clear_bit, unmark, bitmap_size, no_frame, alloc_from, pmm_alloc_frame,
}
use systems_programming_proj.Pelikan.Pmm.Bits.{
  IsBitmap, full-IsBitmap, unmark-IsBitmap, is_used-full,
}
use systems_programming_proj.Pelikan.Kheap.{
  header_size, magic_alloc, magic_free, Memory, KernelHeap, returns, write, split_block, try_block,
  search, start, kmalloc, kfree,
}
use systems_programming_proj.Pelikan.Kheap.Cells.{Cell, cell}
use systems_programming_proj.Pelikan.Kheap.Alloc.{HeapInv, Serves}
use systems_programming_proj.Pelikan.Kheap.Serve.{kmalloc-Serves}
use systems_programming_proj.Pelikan.Kheap.Exclusive.{Exclusive, kmalloc-Exclusive}
use systems_programming_proj.Pelikan.Kheap.Exhausted.{kmalloc_exhausted}
use systems_programming_proj.Pelikan.Kheap.Kfree.{Released, kfree-Released}

-- Three blocks fill frame 301: the middle one is in use.
abbrev hole_before : Cell
hole_before = cell 1232896 80 false

abbrev held : Cell
held = cell 1232996 100 true

abbrev hole_behind : Cell
hole_behind = cell 1233116 3856 false

abbrev cells : List Cell
cells = hole_before ∷ held ∷ hole_behind ∷ []

abbrev blocks : Memory
blocks q =
    if q == 1232896
    then record { size = 80; free = 1; magic = magic_free; next = 1232996; prev = 0 }
    else if q == 1232996
    then record { size = 100; free = 0; magic = magic_alloc; next = 1233116; prev = 1232896 }
    else record { size = 3856; free = 1; magic = magic_free; next = 0; prev = 1232996 }

abbrev heap_with : List ℕ → KernelHeap
heap_with frames = record { head = 1232896; blocks = blocks; frames = frames }

heap_with-HeapInv :
    (frames : List ℕ)
    → IsBitmap frames
    → is_used 0 frames ≡ true
    → is_used 301 frames ≡ true
    → HeapInv (heap_with frames) cells
heap_with-HeapInv frames bitmap first used =
    let only : (g : ℕ) → 301 ≡ g → is_used g frames ≡ true =
      λ g e. ap (λ i. is_used i frames) (sym e) ∙ used in
    record {
      chain = (
        refl,
        (
          λ e. omega (arith, e),
          (
            record { size = refl; free = refl; magic = refl },
            (
              refl,
              (
                λ e. omega (arith, e),
                (
                  record { size = refl; free = refl; magic = refl },
                  (
                    refl,
                    (
                      λ e. omega (arith, e),
                      (record { size = refl; free = refl; magic = refl }, refl),
                    ),
                  ),
                ),
              ),
            ),
          ),
        ),
      );
      apart = ((inl (omega arith), (inl (omega arith), tt)), ((inl (omega arith), tt), (tt, tt)));
      low = (omega arith, (omega arith, (omega arith, tt)));
      backed = (
        λ g lo hi. only g (omega arith),
        (λ g lo hi. only g (omega arith), (λ g lo hi. only g (omega arith), tt)),
      );
      bitmap = bitmap;
      first = first;
    }

abbrev all_used : List ℕ
all_used = replicate bitmap_size 0xff

-- Only frame 300 is free.
abbrev one_free : List ℕ
one_free = unmark 300 all_used

one_free-HeapInv : HeapInv (heap_with one_free) cells
unfolding is_used has_bit unmark clear_bit
one_free-HeapInv =
    heap_with-HeapInv one_free (unmark-IsBitmap _ full-IsBitmap 300 (omega arith)) refl refl

all_used-HeapInv : HeapInv (heap_with all_used) cells
unfolding is_used has_bit
all_used-HeapInv = heap_with-HeapInv all_used full-IsBitmap refl refl

gives_300 : (pmm_alloc_frame one_free).0 ≡ 1228800
unfolding pmm_alloc_frame alloc_from is_used has_bit unmark clear_bit
gives_300 = refl

gives_a_frame : (pmm_alloc_frame one_free).0 ≢ no_frame
gives_a_frame e = omega (arith, gives_300, e)

-- 4000 bytes fit in no block of the list, so that frame 300 is taken.
kmalloc-Serves_example :
    Serves 4000 (heap_with one_free) cells (kmalloc 5 4000 (heap_with one_free))
kmalloc-Serves_example =
    kmalloc-Serves 5 4000 (heap_with one_free) cells (omega arith) (omega arith) (omega arith)
      one_free-HeapInv gives_a_frame

kmalloc-Exclusive_example : Exclusive 100 cells (kmalloc 5 100 (heap_with one_free))
kmalloc-Exclusive_example =
    kmalloc-Exclusive 5 100 (heap_with one_free) cells (omega arith) (omega arith) (omega arith)
      one_free-HeapInv gives_a_frame

kmalloc_exhausted_example :
    (h' : KernelHeap) × (kmalloc 5 4000 (heap_with all_used) ≡ returns 19 h')
kmalloc_exhausted_example =
    kmalloc_exhausted 5 4000 (heap_with all_used) cells (omega arith) (omega arith) (omega arith)
      all_used-HeapInv (inr (omega arith), (inl refl, (inr (omega arith), tt)))
      (λ g lt. is_used-full g lt)

kfree-Released_example :
    Released
      (hole_before ∷ [])
      held
      (hole_behind ∷ [])
      (heap_with one_free)
      (kfree (1232996 + header_size) (heap_with one_free))
kfree-Released_example =
    kfree-Released (heap_with one_free) (hole_before ∷ []) held (hole_behind ∷ []) one_free-HeapInv
      refl

-- The frame's block is cut, and the pointer is behind its header.
gives_pointer :
    (elim (kmalloc 5 100 (heap_with one_free)) [ returns ptr h' ↦ ptr | _ ↦ 0 ]) ≡ 1233136
unfolding kmalloc start search try_block split_block write
gives_pointer = refl
