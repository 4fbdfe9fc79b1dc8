-- ===== src/Pelikan/Kheap/Serve.antt =====
-- Each call of `kmalloc` of pelikanOS/src/heap.c with a size that a frame can hold.
use systems_programming_proj.Prelude.{
  ℕ, ◌+◌, ◌-◌, ◌*◌, ◌<◌, ◌≤◌, true, false, some, List, [], ◌∷◌, ◌≡◌, refl, sym, ap, ◌∙◌, ◌≢◌, inl,
  inr, ◌==◌, ==_iff, ltb, length, arith,
}
use mathlib.Core.Path.{subst}
use systems_programming_proj.Pelikan.Pmm.{no_frame, pmm_alloc_frame}
use systems_programming_proj.Pelikan.Pmm.Fresh.{Fresh, pmm_alloc_frame-Fresh}
use systems_programming_proj.Pelikan.Kheap.{
  frame_payload, KernelHeap, request_space, search, start, kmalloc,
}
use systems_programming_proj.Pelikan.Kheap.Cells.{Cell}
use systems_programming_proj.Pelikan.Kheap.Scan.{search_grow, last_of, Passed, scan}
use systems_programming_proj.Pelikan.Kheap.Grow.{frame_cell}
use systems_programming_proj.Pelikan.Kheap.Alloc.{
  HeapInv, grown, NoFit-append, Lists-prefix, Serves, from_list, from_frame,
}
use systems_programming_proj.Pelikan.Kheap.FromFrame.{
  served-Inv, request_some, Lists-suffix, frame_serves, frame_low, first-Inv, grown-Inv,
}

pub start_null :
    (fuel size b : ℕ) (h h' : KernelHeap)
    → h.head ≡ 0
    → request_space 0 h ≡ some (b, h')
    → start fuel size h ≡ search fuel size b 0 (record h' { head = b })
unfolding start
start_null fuel size b h h' null e =
    let empty : (h.head == 0) ≡ true = (==_iff h.head 0).1 null in rw (empty, e, start) refl

pub start_list :
    (fuel size : ℕ) (h : KernelHeap) → h.head ≢ 0 → start fuel size h ≡ search fuel size h.head 0 h
unfolding start
start_list fuel size h ne =
    let full : (h.head == 0) ≡ false = ground (arith, ne) in rw (full, start) refl

pub kmalloc-start :
    (fuel size : ℕ) (h : KernelHeap)
    → 0 < size
    → size ≤ frame_payload
    → kmalloc fuel size h ≡ start fuel size h
unfolding kmalloc
kmalloc-start fuel size h pos le =
    let some_bytes : (size == 0) ≡ false = ground arith in
    let fits : ltb frame_payload size ≡ false = ground arith in rw (some_bytes, fits) refl

-- The first frame.
start-first :
    (fuel size : ℕ) (h : KernelHeap)
    → size ≤ frame_payload
    → 1 ≤ fuel
    → HeapInv h []
    → Fresh h.frames (pmm_alloc_frame h.frames).0 (pmm_alloc_frame h.frames).1
    → Serves size h [] (start fuel size h)
start-first fuel size h le enough inv fr =
    let m' = (pmm_alloc_frame h.frames).1 in
    let raw = fr.f * 4096 in
    let h' = record (grown 0 h raw m') { head = raw } in
    let inv' = first-Inv h m' _ fr inv.first in
    let found = frame_serves size fr.f 0 h' le (inv'.low.0) inv'.chain in
    let run =
      start_null fuel size raw h (grown 0 h raw m') inv.chain (request_some 0 h fr)
      ∙ found.runs fuel enough in
    subst (Serves size h []) (sym run) (
      from_frame fr.f tt fr.free found.fits (served-Inv h' found.memory found.fits inv' found.lists)
        refl)

-- A further frame.
start-grown :
    (fuel size : ℕ) (h : KernelHeap) (c : Cell) (cs : List Cell)
    → size ≤ frame_payload
    → length (c ∷ cs) + 2 ≤ fuel
    → HeapInv h (c ∷ cs)
    → Fresh h.frames (pmm_alloc_frame h.frames).0 (pmm_alloc_frame h.frames).1
    → Passed size h.head 0 h (c ∷ cs)
    → Serves size h (c ∷ cs) (start fuel size h)
start-grown fuel size h c cs le enough inv fr passed =
    let m' = (pmm_alloc_frame h.frames).1 in
    let raw = fr.f * 4096 in
    let last = last_of c.addr cs in
    let new = frame_cell fr.f in
    let h' = grown last h raw m' in
    let inv' = grown-Inv h m' _ fr inv.first c cs inv in
    let found =
      frame_serves size fr.f last h' le (frame_low h m' _ fr inv.first)
        (Lists-suffix h'.blocks h.head (c ∷ cs) new inv'.chain) in
    let left = (fuel - length (c ∷ cs)) - 1 in
    let run =
      start_list fuel size h (λ e. inv.chain.1.0 (sym inv.chain.0 ∙ e))
      ∙ (passed.runs fuel (omega arith)
          ∙ (ap (λ i. search i size 0 last h) (omega arith)
              ∙ (search_grow left size last raw h h' (request_some last h fr)
                  ∙ found.runs left (omega arith)))) in
    let fit = NoFit-append size (c ∷ cs) new found.ptr found.cs' passed.no_fit found.fits in
    let lists =
      Lists-prefix h'.blocks found.memory h.head (c ∷ cs) new found.cs' found.keeps inv'.apart
        inv'.chain found.lists in
    subst (Serves size h (c ∷ cs)) (sym run)
      (from_frame fr.f passed.no_fit fr.free fit (served-Inv h' found.memory fit inv' lists) refl)

start-Serves :
    (fuel size : ℕ) (h : KernelHeap) (cells : List Cell)
    → size ≤ frame_payload
    → length cells + 2 ≤ fuel
    → HeapInv h cells
    → Fresh h.frames (pmm_alloc_frame h.frames).0 (pmm_alloc_frame h.frames).1
    → Serves size h cells (start fuel size h)
start-Serves fuel size h [] le enough inv fr = start-first fuel size h le (omega arith) inv fr
start-Serves fuel size h (c ∷ cs) le enough inv fr =
    elim (scan size h.head 0 h (c ∷ cs) inv.chain inv.apart inv.low) [
      | inl found ↦
          let run =
            start_list fuel size h (λ e. inv.chain.1.0 (sym inv.chain.0 ∙ e))
            ∙ found.runs fuel (omega arith) in
          subst (Serves size h (c ∷ cs)) (sym run)
            (from_list found.fits (served-Inv h found.memory found.fits inv found.lists) refl)
      | inr passed ↦ start-grown fuel size h c cs le enough inv fr passed
    ]

-- `kmalloc` of a size from 1 to 4076 on a heap that keeps its invariant, while a frame is free: it
-- returns, with as much fuel as the list has blocks and two more, and it does so by first fit. The
-- first block that is free and large enough serves the request, whole or cut, and no frame is taken;
-- if there is none, one frame that was free is taken, and its block serves the request behind the
-- others. The list that results keeps the invariant: no two blocks overlap and each lies in frames
-- that are used.
pub kmalloc-Serves :
    (fuel size : ℕ) (h : KernelHeap) (cells : List Cell)
    → 0 < size
    → size ≤ frame_payload
    → length cells + 2 ≤ fuel
    → HeapInv h cells
    → (pmm_alloc_frame h.frames).0 ≢ no_frame
    → Serves size h cells (kmalloc fuel size h)
kmalloc-Serves fuel size h cells pos le enough inv ne =
    let fr = pmm_alloc_frame-Fresh h.frames inv.bitmap inv.first ne in
    subst (Serves size h cells) (sym (kmalloc-start fuel size h pos le))
      (start-Serves fuel size h cells le enough inv fr)
