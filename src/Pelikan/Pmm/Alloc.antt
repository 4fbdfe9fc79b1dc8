-- ===== src/Pelikan/Pmm/Alloc.antt =====
-- The single frames of pelikanOS/src/pmm.c: allocation, release and the count of free frames.
use systems_programming_proj.Prelude.{
  ℕ, zero, suc, ◌+◌, ◌*◌, ◌/◌, ◌<◌, ◌≤◌, true, false, ◌||◌, some, List, ◌≡◌, refl, sym, ap, ◌∙◌,
  ◌≢◌, inl, inr, ltb, lt→ltb, ◌==◌, ==_iff, Bool-cases, arith,
}
use systems_programming_proj.Pelikan.Pmm.{
  is_used, unmark, max_frames, bitmap_size, no_frame, alloc_from, pmm_alloc_frame, pmm_free_frame,
  free_from, pmm_free_count,
}
use systems_programming_proj.Pelikan.Pmm.Bits.{IsBitmap, mark-IsBitmap, is_used-mark, unmark-mark}

-- What a call may answer: the address of the lowest free frame, which alone is taken, or no frame
-- when there is none.
pub data Allocates (m : List ℕ) : ℕ → List ℕ → Type 0 where
  exhausted : ((g : ℕ) → g < max_frames → is_used g m ≡ true) → Allocates m no_frame m
  lowest :
      {m' : List ℕ} (f : ℕ)
      → f < max_frames
      → is_used f m ≡ false
      → ((g : ℕ) → g < f → is_used g m ≡ true)
      → IsBitmap m'
      → ((g : ℕ) → is_used g m' ≡ ((f == g) || is_used g m))
      → unmark f m' ≡ m
      → Allocates m (f * 4096) m'

extend_used :
    (m : List ℕ) (frame : ℕ)
    → ((g : ℕ) → g < frame → is_used g m ≡ true)
    → is_used frame m ≡ true
    → (g : ℕ) → g < suc frame
    → is_used g m ≡ true
extend_used m frame below here g lt = elim (Bool-cases (frame == g)) [
  | inl e ↦ ap (λ i. is_used i m) (sym ((==_iff frame g).0 e)) ∙ here
  | inr e ↦ below g (ground (arith, e))
]

abbrev Answers : List ℕ → ℕ × List ℕ → Type 0
Answers m (addr, m') = Allocates m addr m'

alloc_from-Allocates :
    (remaining frame : ℕ) (m : List ℕ)
    → IsBitmap m
    → remaining + frame ≡ max_frames
    → ((g : ℕ) → g < frame → is_used g m ≡ true)
    → Answers m (alloc_from remaining frame m)
unfolding alloc_from
alloc_from-Allocates zero frame m h total below = exhausted (λ g lt. below g (omega arith))
alloc_from-Allocates (suc remaining) frame m h total below = elim (Bool-cases (is_used frame m)) [
  | inl used ↦ rw used (
      alloc_from-Allocates remaining (suc frame) m h (omega arith) (extend_used m frame below used))
  | inr free ↦
      let lt : frame < max_frames = omega arith in
      rw free (
        lowest frame lt free below (mark-IsBitmap m h frame lt) (is_used-mark m h frame lt)
          (unmark-mark m h frame lt free))
]

-- `pmm_alloc_frame` on any bitmap: if a frame is free it returns the address of the lowest free
-- frame and takes that frame and no other, and if none is free it returns 0xFFFFFFFF and leaves the
-- bitmap as it is.
pub pmm_alloc_frame-Allocates :
    (m : List ℕ) → IsBitmap m → Allocates m (pmm_alloc_frame m).0 (pmm_alloc_frame m).1
unfolding pmm_alloc_frame
pmm_alloc_frame-Allocates m h =
    alloc_from-Allocates max_frames 0 m h refl (λ g lt. absurd (omega arith))

free_back :
    {m m' : List ℕ} {addr : ℕ}
    → Allocates m addr m'
    → addr ≢ no_frame
    → pmm_free_frame addr m' ≡ some m
unfolding pmm_free_frame
free_back (exhausted _) ne = absurd (ne refl)
free_back {m = m} {m' = m'} (lowest f lt free _ _ _ back) ne =
    let eq : f * 4096 / 4096 ≡ f = omega arith in
    let fits : ltb (f / 8) bitmap_size ≡ true = lt→ltb (f / 8) bitmap_size (omega arith) in
    rw (eq, fits) (ap some back)

-- A frame that `pmm_alloc_frame` gave and that is freed at once leaves the bitmap as it was, byte
-- for byte, unless there was no frame to give.
pub pmm_free_frame-pmm_alloc_frame :
    (m : List ℕ)
    → IsBitmap m
    → (pmm_alloc_frame m).0 ≢ no_frame
    → pmm_free_frame (pmm_alloc_frame m).0 (pmm_alloc_frame m).1 ≡ some m
pmm_free_frame-pmm_alloc_frame m h ne = free_back (pmm_alloc_frame-Allocates m h) ne

-- The count does not change where the frames counted are the same.
free_from-same :
    (remaining frame : ℕ) (m m' : List ℕ)
    → ((g : ℕ) → frame ≤ g → is_used g m' ≡ is_used g m)
    → free_from remaining frame m' ≡ free_from remaining frame m
unfolding free_from
free_from-same zero frame m m' same = refl
free_from-same (suc remaining) frame m m' same =
    rw
      (
        same frame (omega arith),
        free_from-same remaining (suc frame) m m' (λ g le. same g (omega arith)),
      )
      refl

==-above : (f g : ℕ) → f < g → (f == g) ≡ false
==-above f g lt = ground arith

free_from-taken :
    (remaining frame f : ℕ) (m m' : List ℕ)
    → is_used f m ≡ false
    → ((g : ℕ) → is_used g m' ≡ ((f == g) || is_used g m))
    → frame ≤ f
    → f < remaining + frame
    → suc (free_from remaining frame m') ≡ free_from remaining frame m
unfolding free_from
free_from-taken zero frame f m m' free taken le lt = absurd (omega arith)
free_from-taken (suc remaining) frame f m m' free taken le lt = elim (Bool-cases (f == frame)) [
  | inl e ↦
      let eq : f ≡ frame = (==_iff f frame).0 e in
      let same : free_from remaining (suc frame) m' ≡ free_from remaining (suc frame) m =
        free_from-same remaining (suc frame) m m'
          (λ g le'. taken g ∙ ap (λ b. b || is_used g m) (==-above f g (omega arith))) in
      rw (taken frame, e, ap (λ i. is_used i m) (sym eq) ∙ free) (ap suc same)
  | inr e ↦
      let ih : suc (free_from remaining (suc frame) m') ≡ free_from remaining (suc frame) m =
        free_from-taken remaining (suc frame) f m m' free taken (ground (arith, e)) (omega arith) in
      rw (taken frame, e) ground (arith, ih)
]

count_drops :
    {m m' : List ℕ} {addr : ℕ}
    → Allocates m addr m'
    → addr ≢ no_frame
    → suc (pmm_free_count m') ≡ pmm_free_count m
unfolding pmm_free_count
count_drops (exhausted _) ne = absurd (ne refl)
count_drops {m = m} {m' = m'} (lowest f lt free _ _ taken _) ne =
    free_from-taken max_frames 0 f m m' free taken (omega arith) lt

-- On any bitmap, each frame that `pmm_alloc_frame` gives lowers the count of `pmm_free_count` by
-- exactly one.
pub pmm_free_count-pmm_alloc_frame :
    (m : List ℕ)
    → IsBitmap m
    → (pmm_alloc_frame m).0 ≢ no_frame
    → suc (pmm_free_count (pmm_alloc_frame m).1) ≡ pmm_free_count m
pmm_free_count-pmm_alloc_frame m h ne = count_drops (pmm_alloc_frame-Allocates m h) ne
