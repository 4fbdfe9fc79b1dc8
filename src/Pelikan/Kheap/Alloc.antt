-- ===== src/Pelikan/Kheap/Alloc.antt =====
-- `kmalloc` of pelikanOS/src/heap.c as first fit on the list of its blocks.
use systems_programming_proj.Prelude.{
  ℕ, ◌^◌, true, false, some, List, [], ◌∷◌, ◌++◌, ◌≡◌, refl, ap, ◌≢◌, ◌==◌, arith,
}
use systems_programming_proj.Pelikan.Pmm.{is_used, pmm_alloc_frame}
use systems_programming_proj.Pelikan.Pmm.Bits.{IsBitmap}
use systems_programming_proj.Pelikan.Kheap.{
  Memory, write, KernelHeap, frame_block, link_last, use_frame, Outcome, returns,
}
use systems_programming_proj.Pelikan.Kheap.Cells.{Cell, ClearOf, Apart, FirstFit, later, NoFit}
use systems_programming_proj.Pelikan.Kheap.Memory.{
  Lists, Outside, Below, Lists-from, Shows-same, ClearOf-Outside,
}
use systems_programming_proj.Pelikan.Kheap.Grow.{frame_cell, InUse}

-- The invariant of the heap: the links visit the blocks of the list, no two of which overlap; they
-- lie in the memory that the bitmap stands for, in frames that are used; frame 0 is used.
pub record HeapInv (h : KernelHeap) (cells : List Cell) : Type 0 where
  pub chain : Lists h.blocks h.head cells
  pub apart : Apart cells
  pub low : Below (2 ^ 27) cells
  pub backed : InUse h.frames cells
  pub bitmap : IsBitmap h.frames
  pub first : is_used 0 h.frames ≡ true

-- The heap with the block of the new frame.
abbrev pub grown : (last : ℕ) → KernelHeap → (raw : ℕ) → List ℕ → KernelHeap
grown last h raw frames = record h {
  blocks = link_last last raw (write raw (λ b. frame_block last) h.blocks);
  frames = frames;
}

pub use_frame-some :
    (last : ℕ) (h : KernelHeap) (raw : ℕ) (frames : List ℕ)
    → raw ≢ 0
    → use_frame last h (raw, frames) ≡ some (raw, grown last h raw frames)
unfolding use_frame
use_frame-some last h raw frames ne = let e : (raw == 0) ≡ false = ground (arith, ne) in rw e refl

pub NoFit-append :
    (size : ℕ) (cs : List Cell) (d : Cell) (ptr : ℕ) (ds : List Cell)
    → NoFit size cs
    → FirstFit size (d ∷ []) ptr ds
    → FirstFit size (cs ++ d ∷ []) ptr (cs ++ ds)
NoFit-append size [] d ptr ds h fit = fit
NoFit-append size (c ∷ cs) d ptr ds h fit = later h.0 (NoFit-append size cs d ptr ds h.1 fit)

ClearOf-last :
    (c : Cell) (cs : List Cell) (d : Cell) → ClearOf c (cs ++ d ∷ []) → ClearOf c (d ∷ [])
ClearOf-last c [] d h = h
ClearOf-last c (e ∷ cs) d h = ClearOf-last c cs d h.1

-- The last block is replaced by pieces of it.
pub Lists-prefix :
    (m m' : Memory) (p : ℕ) (cs : List Cell) (d : Cell) (ds : List Cell)
    → ((q : ℕ) → Outside q (d ∷ []) → m' q ≡ m q)
    → Apart (cs ++ d ∷ [])
    → Lists m p (cs ++ d ∷ [])
    → Lists m' d.addr ds
    → Lists m' p (cs ++ ds)
Lists-prefix m m' p [] d ds keeps apart h rest = Lists-from m' p d.addr ds h.0 rest
Lists-prefix m m' p (c ∷ cs) d ds keeps apart h rest =
    let same : m' c.addr ≡ m c.addr = keeps c.addr (
      ClearOf-Outside c c.addr (d ∷ []) (omega arith) (omega arith)
        (ClearOf-last c cs d apart.0)) in
    (
      h.0,
      (
        h.1.0,
        (
          Shows-same _ _ c same h.1.1.0,
          Lists-from m' _ _ (cs ++ ds) (ap (λ u. u.next) same)
              (Lists-prefix m m' (m c.addr).next cs d ds keeps apart.1 h.1.1.1 rest),
        ),
      ),
    )

-- What a call of `kmalloc` may do. Either the first block of the list that is free and large enough
-- serves the request and no frame is asked for; or none is, a free frame is taken and its block
-- joins the end of the list and serves it. The pointer is that of the block's payload.
pub data Serves (size : ℕ) (h : KernelHeap) (cells : List Cell) : Outcome → Type 0 where
  from_list :
      {ptr : ℕ} {h' : KernelHeap} {cells' : List Cell}
      → FirstFit size cells ptr cells'
      → HeapInv h' cells'
      → h'.frames ≡ h.frames
      → Serves size h cells (returns ptr h')
  from_frame :
      {ptr : ℕ} {h' : KernelHeap} {cells' : List Cell} (f : ℕ)
      → NoFit size cells
      → is_used f h.frames ≡ false
      → FirstFit size (cells ++ frame_cell f ∷ []) ptr cells'
      → HeapInv h' cells'
      → h'.frames ≡ (pmm_alloc_frame h.frames).1
      → Serves size h cells (returns ptr h')
