-- ===== src/Pelikan/Kheap/FromFrame.antt =====
-- A request of kmalloc in pelikanOS/src/heap.c that takes a new frame.
use systems_programming_proj.Prelude.{
  ℕ, ◌+◌, ◌*◌, ◌<◌, ◌≤◌, ◌^◌, true, false, some, List, [], ◌∷◌, ◌++◌, ◌≡◌, refl, sym, ap, ◌∙◌, ◌≢◌,
  inl, inr, ◌==◌, arith,
}
use mathlib.Core.Path.{subst}
use systems_programming_proj.Pelikan.Pmm.{is_used, pmm_alloc_frame}
use systems_programming_proj.Pelikan.Pmm.Fresh.{Fresh}
use systems_programming_proj.Pelikan.Kheap.{
  header_size, frame_payload, Memory, write, KernelHeap, frame_block, with_next, request_space,
  use_frame, link_last,
}
use systems_programming_proj.Pelikan.Kheap.Cells.{Cell, end, FirstFit, FirstFit-Apart}
use systems_programming_proj.Pelikan.Kheap.Memory.{
  Shows, Lists, write_self, Lists-write, Lists-from, ClearOf-Outside,
}
use systems_programming_proj.Pelikan.Kheap.Scan.{last_of, Found, scan}
use systems_programming_proj.Pelikan.Kheap.Grow.{
  frame_cell, InUse-ClearOf, InUse-more, InUse-FirstFit, Below-FirstFit, InUse-append, Below-append,
  Apart-append, Lists-append,
}
use systems_programming_proj.Pelikan.Kheap.Alloc.{HeapInv, grown, use_frame-some}

-- The invariant follows the list that a request leaves.
pub served-Inv :
    {size ptr : ℕ} {cells cells' : List Cell} (h : KernelHeap) (m : Memory)
    → FirstFit size cells ptr cells'
    → HeapInv h cells
    → Lists m h.head cells'
    → HeapInv (record h { blocks = m }) cells'
served-Inv h m fit inv lists = record {
  chain = lists;
  apart = FirstFit-Apart fit inv.apart;
  low = Below-FirstFit (2 ^ 27) fit inv.low;
  backed = InUse-FirstFit h.frames fit inv.backed;
  bitmap = inv.bitmap;
  first = inv.first;
}

pub request_some :
    (last : ℕ) (h : KernelHeap)
    (fr : Fresh h.frames (pmm_alloc_frame h.frames).0 (pmm_alloc_frame h.frames).1)
    → request_space last h
      ≡ some (fr.f * 4096, grown last h (fr.f * 4096) (pmm_alloc_frame h.frames).1)
unfolding request_space use_frame
request_some last h fr =
    let m' = (pmm_alloc_frame h.frames).1 in
    ap (λ i. use_frame last h (i, m')) fr.at
    ∙ use_frame-some last h (fr.f * 4096) m' (λ e. fr.nonzero (omega (arith, e)))

last_nonnull :
    (m : Memory) (c : Cell) (cs : List Cell)
    → (c.addr ≢ 0) × (Shows (m c.addr) c × Lists m (m c.addr).next cs)
    → last_of c.addr cs ≢ 0
last_nonnull m c [] h = h.0
last_nonnull m c (d ∷ ds) h = last_nonnull m d ds h.1.1.1

pub link_last-write :
    (last raw : ℕ) (m : Memory) → last ≢ 0 → link_last last raw m ≡ write last (with_next raw) m
link_last-write last raw m ne = let e : (last == 0) ≡ false = ground (arith, ne) in rw e refl

pub Lists-suffix :
    (m : Memory) (p : ℕ) (cs : List Cell) (d : Cell)
    → Lists m p (cs ++ d ∷ [])
    → Lists m d.addr (d ∷ [])
Lists-suffix m p [] d h = (refl, h.1)
Lists-suffix m p (c ∷ cs) d h = Lists-suffix m (m c.addr).next cs d h.1.1.1

module _ (h : KernelHeap) (m' : List ℕ) (addr : ℕ) (fr : Fresh h.frames addr m')
    (zeroth : is_used 0 h.frames ≡ true) where
  frame_backed :
      (g : ℕ)
      → fr.f * 4096 < g * 4096 + 4096
      → g * 4096 < fr.f * 4096 + (header_size + frame_payload)
      → is_used g m' ≡ true
  frame_backed g lo hi = let e : fr.f ≡ g = omega arith in ap (λ i. is_used i m') (sym e) ∙ fr.self

  pub frame_low : end (frame_cell fr.f) ≤ 2 ^ 27
  frame_low = omega (arith, fr.below)

  frame_nonnull : fr.f * 4096 ≢ 0
  frame_nonnull e = fr.nonzero (omega (arith, e))

  -- The first frame of the heap.
  pub first-Inv :
      HeapInv (record (grown 0 h (fr.f * 4096) m') { head = fr.f * 4096 }) (frame_cell fr.f ∷ [])
  first-Inv =
      let raw = fr.f * 4096 in
      let self = write_self raw (λ b. frame_block 0) h.blocks in
      record {
        chain = (
          refl,
          (
            frame_nonnull,
            (
              record {
                size = ap (λ u. u.size) self;
                free = ap (λ u. u.free) self;
                magic = ap (λ u. u.magic) self;
              },
              ap (λ u. u.next) self,
            ),
          ),
        );
        apart = (tt, tt);
        low = (frame_low, tt);
        backed = (frame_backed, tt);
        bitmap = fr.bitmap;
        first = fr.more 0 zeroth;
      }

  -- A frame behind the blocks there are.
  pub grown-Inv :
      (c : Cell) (cs : List Cell)
      → HeapInv h (c ∷ cs)
      → HeapInv (grown (last_of c.addr cs) h (fr.f * 4096) m') (c ∷ cs ++ frame_cell fr.f ∷ [])
  grown-Inv c cs inv =
      let raw = fr.f * 4096 in
      let last = last_of c.addr cs in
      let new = frame_cell fr.f in
      let clear = InUse-ClearOf h.frames fr.f (c ∷ cs) fr.free inv.backed in
      let out = ClearOf-Outside new raw (c ∷ cs) (omega arith) (omega arith) clear in
      let m₁ = write raw (λ b. frame_block last) h.blocks in
      let self = write_self raw (λ b. frame_block last) h.blocks in
      let shows : Shows (m₁ raw) new = record {
        size = ap (λ u. u.size) self;
        free = ap (λ u. u.free) self;
        magic = ap (λ u. u.magic) self;
      } in
      let lists =
        Lists-append m₁ c cs new frame_nonnull shows (ap (λ u. u.next) self) out inv.apart (
          Lists-write h.blocks c.addr (c ∷ cs) raw (λ b. frame_block last) out inv.apart
            (refl, inv.chain.1)) in
      let linked = link_last-write last raw m₁ (last_nonnull h.blocks c cs inv.chain.1) in
      record {
        chain =
            subst (λ m. Lists m h.head (c ∷ cs ++ new ∷ [])) (sym linked)
              (Lists-from _ h.head c.addr (c ∷ cs ++ new ∷ []) inv.chain.0 lists);
        apart = Apart-append (c ∷ cs) new inv.apart clear;
        low = Below-append (2 ^ 27) (c ∷ cs) new inv.low frame_low;
        backed =
            InUse-append m' (c ∷ cs) new (InUse-more h.frames m' (c ∷ cs) fr.more inv.backed)
              (frame_backed, tt);
        bitmap = fr.bitmap;
        first = fr.more 0 zeroth;
      }

-- The block of a new frame serves any size that a frame can hold.
pub frame_serves :
    (size f last : ℕ) (h : KernelHeap)
    → size ≤ frame_payload
    → end (frame_cell f) ≤ 2 ^ 27
    → Lists h.blocks (f * 4096) (frame_cell f ∷ [])
    → Found size (f * 4096) last h (frame_cell f ∷ [])
frame_serves size f last h le low lists =
    elim (scan size (f * 4096) last h (frame_cell f ∷ []) lists (tt, tt) (low, tt)) [
      | inl found ↦ found
      | inr passed ↦ elim (passed.no_fit.0) [
        | inl e ↦ ground (arith, e)
        | inr lt ↦ absurd (omega arith)
      ]
    ]
