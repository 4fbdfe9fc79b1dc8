-- ===== src/Pelikan/Kheap/Exclusive.antt =====
-- The bytes that `kmalloc` of pelikanOS/src/heap.c hands out.
use systems_programming_proj.Prelude.{
  ℕ, ◌+◌, ◌<◌, ◌≤◌, true, false, List, [], ◌∷◌, ◌++◌, ◌≡◌, sym, ◌∙◌, ◌≢◌, ◌⊎◌, inl, inr, length,
  arith,
}
use systems_programming_proj.Pelikan.Pmm.{no_frame, pmm_alloc_frame}
use systems_programming_proj.Pelikan.Kheap.{
  header_size, frame_payload, KernelHeap, Outcome, returns, kmalloc,
}
use systems_programming_proj.Pelikan.Kheap.Cells.{Cell, end, ClearOf, Apart, FirstFit, here, later}
use systems_programming_proj.Pelikan.Kheap.Grow.{frame_cell, InUse-ClearOf, Apart-append}
use systems_programming_proj.Pelikan.Kheap.Alloc.{HeapInv, Serves, from_list, from_frame}
use systems_programming_proj.Pelikan.Kheap.Serve.{kmalloc-Serves}

-- The bytes from a pointer on are in no block of the list that is used, nor in its header.
abbrev pub Untaken : (ptr size : ℕ) → List Cell → Type 0
Untaken ptr size [] = Unit
Untaken ptr size (d ∷ ds) =
    (d.used ≡ true → (end d ≤ ptr) ⊎ (ptr + size ≤ d.addr)) × Untaken ptr size ds

-- The call returned a pointer to bytes that nobody had.
pub data Exclusive (size : ℕ) (cells : List Cell) : Outcome → Type 0 where
  exclusive :
      {ptr : ℕ} {h' : KernelHeap} → Untaken ptr size cells → Exclusive size cells (returns ptr h')

FirstFit-clear :
    {size ptr : ℕ} {cells cells' : List Cell} (d : Cell)
    → FirstFit size cells ptr cells'
    → ClearOf d cells
    → (end d ≤ ptr) ⊎ (ptr + size ≤ d.addr)
FirstFit-clear d (here _ fits _) clear = elim (clear.0) [
  | inl a ↦ inl (omega arith)
  | inr b ↦ inr (omega arith)
]
FirstFit-clear d (later _ rest) clear = FirstFit-clear d rest clear.1

ClearOf-Untaken :
    (c : Cell) (ptr size : ℕ) (ds : List Cell)
    → c.addr + header_size ≤ ptr
    → ptr + size ≤ end c
    → ClearOf c ds
    → Untaken ptr size ds
ClearOf-Untaken c ptr size [] lo hi clear = tt
ClearOf-Untaken c ptr size (d ∷ ds) lo hi clear = (
  λ used. elim (clear.0) [ inl a ↦ inr (omega arith) | inr b ↦ inl (omega arith) ],
  ClearOf-Untaken c ptr size ds lo hi clear.1,
)

pub FirstFit-Untaken :
    {size ptr : ℕ} {cells cells' : List Cell}
    → FirstFit size cells ptr cells'
    → Apart cells
    → Untaken ptr size cells
FirstFit-Untaken {size = size} (here {c = c} {cs = cs} unused fits _) apart = (
  λ used. let clash : true ≡ false = sym used ∙ unused in ground (arith, clash),
  ClearOf-Untaken c (c.addr + header_size) size cs (omega arith) (omega arith) apart.0,
)
FirstFit-Untaken (later {c = c} _ rest) apart =
    (λ used. FirstFit-clear c rest apart.0, FirstFit-Untaken rest apart.1)

Untaken-prefix :
    (ptr size : ℕ) (cs ds : List Cell) → Untaken ptr size (cs ++ ds) → Untaken ptr size cs
Untaken-prefix ptr size [] ds h = tt
Untaken-prefix ptr size (c ∷ cs) ds h = (h.0, Untaken-prefix ptr size cs ds h.1)

Serves-Exclusive :
    (size : ℕ) (h : KernelHeap) (cells : List Cell) (o : Outcome)
    → HeapInv h cells
    → Serves size h cells o
    → Exclusive size cells o
Serves-Exclusive size h cells o inv (from_list fit _ _) = exclusive (FirstFit-Untaken fit inv.apart)
Serves-Exclusive size h cells o inv (from_frame f _ free fit _ _) = exclusive (
    Untaken-prefix _ size cells (frame_cell f ∷ []) (
      FirstFit-Untaken fit (
        Apart-append cells (frame_cell f) inv.apart
          (InUse-ClearOf h.frames f cells free inv.backed))))

-- On a heap that keeps its invariant, while a frame is free and with fuel for the list and two more,
-- `kmalloc` of a size from 1 to 4076 returns a pointer, and none of the bytes it points to, as many
-- as asked for, lies in a block that was in use or in the header of one.
pub kmalloc-Exclusive :
    (fuel size : ℕ) (h : KernelHeap) (cells : List Cell)
    → 0 < size
    → size ≤ frame_payload
    → length cells + 2 ≤ fuel
    → HeapInv h cells
    → (pmm_alloc_frame h.frames).0 ≢ no_frame
    → Exclusive size cells (kmalloc fuel size h)
kmalloc-Exclusive fuel size h cells pos le enough inv ne =
    Serves-Exclusive size h cells _ inv (kmalloc-Serves fuel size h cells pos le enough inv ne)
