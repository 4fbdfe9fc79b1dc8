-- ===== src/Pelikan/Kheap/Exhausted.antt =====
-- `kmalloc` of pelikanOS/src/heap.c when there is no frame left.
use mathlib.Core.Path.{subst}
use systems_programming_proj.Prelude.{
  ℕ, zero, suc, ◌+◌, ◌-◌, ◌<◌, ◌≤◌, ◌^◌, true, false, some, List, [], ◌∷◌, ◌≡◌, refl, sym, ap, ◌∙◌,
  inl, inr, ◌==◌, leb, Bool-cases, length, arith,
}
use systems_programming_proj.Pelikan.Pmm.{no_frame, max_frames, is_used, pmm_alloc_frame}
use systems_programming_proj.Pelikan.Pmm.Alloc.{
  Allocates, exhausted, lowest, pmm_alloc_frame-Allocates,
}
use systems_programming_proj.Pelikan.Kheap.{
  header_size, frame_payload, Memory, write, KernelHeap, frame_block, with_next, taken, split_block,
  try_block, request_space, use_frame, Outcome, returns, search, start, kmalloc,
}
use systems_programming_proj.Pelikan.Kheap.Cells.{Cell, FirstFit, here, later, NoFit}
use systems_programming_proj.Pelikan.Kheap.Memory.{Below, write_self, write_other}
use systems_programming_proj.Pelikan.Kheap.Fit.{try_whole, try_front}
use systems_programming_proj.Pelikan.Kheap.Scan.{search_hit, search_grow, last_of, scan}
use systems_programming_proj.Pelikan.Kheap.Alloc.{HeapInv, grown, use_frame-some}
use systems_programming_proj.Pelikan.Kheap.Serve.{start_null, start_list, kmalloc-start}
use systems_programming_proj.Pelikan.Kheap.FromFrame.{link_last-write}

-- The block of a frame serves any size that a frame can hold, whatever its address.
frame_tried :
    (size p last : ℕ) (m : Memory)
    → size ≤ frame_payload
    → (m p).free ≡ 1
    → (m p).size ≡ frame_payload
    → (m' : Memory) × (try_block size p m ≡ some m')
frame_tried size p last m le free sized =
    elim (Bool-cases (leb frame_payload (size + header_size))) [
      | inl e ↦ (
        write p taken m,
        try_whole size p m free (omega (arith, sized)) (ground (arith, sized, e)),
      )
      | inr e ↦ (split_block size p m, try_front size p m free (ground (arith, sized, e)))
    ]

abbrev WildPointer : Outcome → Type 0
WildPointer o = (h' : KernelHeap) × (o ≡ returns 19 h')

search_wild :
    (fuel size last : ℕ) (h : KernelHeap)
    → size ≤ frame_payload
    → 1 ≤ fuel
    → (h.blocks no_frame).free ≡ 1
    → (h.blocks no_frame).size ≡ frame_payload
    → WildPointer (search fuel size no_frame last h)
search_wild zero size last h le enough free sized = absurd (omega arith)
search_wild (suc fuel) size last h le enough free sized =
    let (m', e) = frame_tried size no_frame last h.blocks le free sized in
    (record h { blocks = m' }, search_hit fuel size no_frame last h m' (λ n. omega (arith, n)) e)

last_low :
    (last : ℕ) (cs : List Cell) → last < 2 ^ 27 → Below (2 ^ 27) cs → last_of last cs < 2 ^ 27
last_low last [] lt low = lt
last_low last (c ∷ cs) lt low = last_low c.addr cs (omega (arith, low.0)) low.1

-- The header that `request_space` writes when there is no frame.
wild_header :
    (last : ℕ) (h : KernelHeap)
    → last < 2 ^ 27
    → ((grown last h no_frame h.frames).blocks no_frame) ≡ frame_block last
wild_header last h lt =
    let m₁ = write no_frame (λ b. frame_block last) h.blocks in
    let self = write_self no_frame (λ b. frame_block last) h.blocks in
    elim (Bool-cases (last == 0)) [
      | inl e ↦ rw e self
      | inr e ↦
          ap (λ (m : Memory). m no_frame) (link_last-write last no_frame m₁ (ground (arith, e)))
          ∙ (write_other last no_frame (with_next no_frame) m₁ (λ n. omega (arith, n)) ∙ self)
    ]

request_wild :
    (last : ℕ) (h : KernelHeap)
    → pmm_alloc_frame h.frames ≡ (no_frame, h.frames)
    → request_space last h ≡ some (no_frame, grown last h no_frame h.frames)
unfolding request_space
request_wild last h e =
    ap (use_frame last h) e ∙ use_frame-some last h no_frame h.frames (λ n. omega (arith, n))

NoFit-clash :
    {size ptr : ℕ} {cells cells' : List Cell}
    → NoFit size cells
    → FirstFit size cells ptr cells'
    → ⊥
NoFit-clash h (here unused fits _) = elim (h.0) [
  | inl used ↦ let clash : true ≡ false = sym used ∙ unused in ground (arith, clash)
  | inr small ↦ omega arith
]
NoFit-clash h (later _ rest) = NoFit-clash h.1 rest

start_wild :
    (fuel size : ℕ) (h : KernelHeap) (cells : List Cell)
    → size ≤ frame_payload
    → length cells + 2 ≤ fuel
    → HeapInv h cells
    → NoFit size cells
    → pmm_alloc_frame h.frames ≡ (no_frame, h.frames)
    → WildPointer (start fuel size h)
start_wild fuel size h [] le enough inv unfit full =
    let wild = wild_header 0 h (omega arith) in
    subst WildPointer
      (sym (
        start_null fuel size no_frame h (grown 0 h no_frame h.frames) inv.chain
          (request_wild 0 h full)))
      (search_wild fuel size 0 (record (grown 0 h no_frame h.frames) { head = no_frame }) le
        (omega arith) (ap (λ u. u.free) wild) (ap (λ u. u.size) wild))
start_wild fuel size h (c ∷ cs) le enough inv unfit full =
    elim (scan size h.head 0 h (c ∷ cs) inv.chain inv.apart inv.low) [
      | inl found ↦ absurd (NoFit-clash unfit found.fits)
      | inr passed ↦
          let last = last_of c.addr cs in
          let lt = last_low c.addr cs (omega (arith, inv.low.0)) inv.low.1 in
          let left = (fuel - length (c ∷ cs)) - 1 in
          let wild = wild_header last h lt in
          let run =
            start_list fuel size h (λ e. inv.chain.1.0 (sym inv.chain.0 ∙ e))
            ∙ (passed.runs fuel (omega arith)
                ∙ (ap (λ i. search i size 0 last h) (omega arith)
                    ∙ search_grow left size last no_frame h (grown last h no_frame h.frames)
                        (request_wild last h full))) in
          subst WildPointer (sym run) (
            search_wild left size last (grown last h no_frame h.frames) le (omega arith)
              (ap (λ u. u.free) wild) (ap (λ u. u.size) wild))
    ]

Allocates-full :
    {m m' : List ℕ} {addr : ℕ}
    → ((g : ℕ) → g < max_frames → is_used g m ≡ true)
    → Allocates m addr m'
    → (addr ≡ no_frame) × (m' ≡ m)
Allocates-full full (exhausted _) = (refl, refl)
Allocates-full full (lowest f lt free _ _ _ _) =
    let clash : true ≡ false = sym (full f lt) ∙ free in absurd (ground (arith, clash))

-- When no block of the list serves the request and every frame is used, `kmalloc` of a size from 1 to
-- 4076 does not report a failure: on a heap that keeps its invariant, with fuel for the list and two
-- more, it takes the answer 0xFFFFFFFF for a frame and returns the pointer 19.
pub kmalloc_exhausted :
    (fuel size : ℕ) (h : KernelHeap) (cells : List Cell)
    → 0 < size
    → size ≤ frame_payload
    → length cells + 2 ≤ fuel
    → HeapInv h cells
    → NoFit size cells
    → ((g : ℕ) → g < max_frames → is_used g h.frames ≡ true)
    → (h' : KernelHeap) × (kmalloc fuel size h ≡ returns 19 h')
kmalloc_exhausted fuel size h cells pos le enough inv unfit full =
    let (addr, same) = Allocates-full full (pmm_alloc_frame-Allocates h.frames inv.bitmap) in
    let answer : pmm_alloc_frame h.frames ≡ (no_frame, h.frames) =
      ap (λ i. (i, (pmm_alloc_frame h.frames).1)) addr ∙ ap (λ i. (no_frame, i)) same in
    subst WildPointer (sym (kmalloc-start fuel size h pos le))
      (start_wild fuel size h cells le enough inv unfit answer)
