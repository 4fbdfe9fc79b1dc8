-- ===== src/Pelikan/Pmm/Contiguous.antt =====
-- `pmm_alloc_contiguous` of pelikanOS/src/pmm.c: the window that slides over the bitmap.
use systems_programming_proj.Prelude.{
  ℕ, zero, suc, ◌+◌, ◌-◌, ◌*◌, ◌<◌, ◌≤◌, true, false, ◌||◌, Option, none, some, List, ◌≡◌, refl,
  sym, ap, ◌∙◌, ◌≢◌, inl, inr, ◌==◌, ltb, ==_iff, Bool-cases, arith,
}
use mathlib.Core.Bool.{true≢false}
use systems_programming_proj.Pelikan.Pmm.{
  is_used, max_frames, no_frame, window, mark_range, pmm_alloc_contiguous,
}
use systems_programming_proj.Pelikan.Pmm.Bits.{IsBitmap}
use systems_programming_proj.Pelikan.Pmm.Ranges.{in_range, mark_range-IsBitmap, is_used-mark_range}

-- So many frames from one on are free.
abbrev pub FreeRun : List ℕ → ℕ → ℕ → Type 0
FreeRun m s n = (g : ℕ) → s ≤ g → g < s + n → is_used g m ≡ false

data Window (m : List ℕ) (n : ℕ) : Option (ℕ × ℕ) → Type 0 where
  missing : ((s : ℕ) → s + n ≤ max_frames → ¬ FreeRun m s n) → Window m n none
  found :
      (s e : ℕ)
      → s ≤ e
      → suc e ≡ s + n
      → e < max_frames
      → FreeRun m s n
      → ((s' : ℕ) → s' < s → ¬ FreeRun m s' n)
      → Window m n (some (s, e))

-- A frame in use ends every run that would begin at or before it.
no_run_over :
    (m : List ℕ) (n start end : ℕ)
    → start ≤ end
    → end < start + n
    → is_used end m ≡ true
    → ((s : ℕ) → s < start → ¬ FreeRun m s n)
    → (s : ℕ) → s < suc end
    → ¬ FreeRun m s n
no_run_over m n start end le lt used below s hs run = elim (Bool-cases (ltb s start)) [
  | inl e ↦ below s (ground (arith, e)) run
  | inr e ↦
      let free : is_used end m ≡ false = run end (omega arith) (ground (arith, e)) in
      true≢false (sym used ∙ free)
]

extend_free :
    (m : List ℕ) (start end : ℕ)
    → ((g : ℕ) → start ≤ g → g < end → is_used g m ≡ false)
    → is_used end m ≡ false
    → (g : ℕ) → start ≤ g
    → g < suc end
    → is_used g m ≡ false
extend_free m start end free here g le lt = elim (Bool-cases (end == g)) [
  | inl e ↦ ap (λ i. is_used i m) (sym ((==_iff end g).0 e)) ∙ here
  | inr e ↦ free g le (ground (arith, e))
]

window-Window :
    (remaining n start end : ℕ) (m : List ℕ)
    → remaining + end ≡ max_frames
    → start ≤ end
    → end < start + n
    → ((g : ℕ) → start ≤ g → g < end → is_used g m ≡ false)
    → ((s : ℕ) → s < start → ¬ FreeRun m s n)
    → Window m n (window remaining n start end m)
unfolding window
window-Window zero n start end m total le lt free below = missing (λ s fits. below s (omega arith))
window-Window (suc remaining) n start end m total le lt free below =
    elim (Bool-cases (is_used end m)) [
      | inl used ↦ rw used (
          window-Window remaining n (suc end) (suc end) m (omega arith) (omega arith) (omega arith)
            (λ g a b. absurd (omega arith)) (no_run_over m n start end le lt used below))
      | inr unused ↦
          let free' = extend_free m start end free unused in
          elim (Bool-cases ((end - start) + 1 == n)) [
            | inl e ↦
                let eq : (end - start) + 1 ≡ n = (==_iff _ n).0 e in
                rw (unused, e)
                  (found start end le (omega arith) (omega arith) (λ g a b. free' g a (omega arith))
                    below)
            | inr e ↦
                let ne : (end - start) + 1 ≢ n = ground (arith, e) in
                rw (unused, e)
                  (window-Window remaining n start (suc end) m (omega arith) (omega arith)
                    (omega arith) free' below)
          ]
    ]

-- What a call for `n` frames may answer: the first frame of the lowest free run of that length,
-- which is then in use with no other frame changed, or no frame when there is no such run.
pub data AllocatesRun (m : List ℕ) (n : ℕ) : ℕ → List ℕ → Type 0 where
  no_run : ((s : ℕ) → s + n ≤ max_frames → ¬ FreeRun m s n) → AllocatesRun m n no_frame m
  lowest_run :
      {m' : List ℕ} (s : ℕ)
      → s + n ≤ max_frames
      → FreeRun m s n
      → ((s' : ℕ) → s' < s → ¬ FreeRun m s' n)
      → IsBitmap m'
      → ((g : ℕ) → is_used g m' ≡ (in_range s n g || is_used g m))
      → AllocatesRun m n (s * 4096) m'

abbrev taken : List ℕ → Option (ℕ × ℕ) → ℕ × List ℕ
taken m none = (no_frame, m)
taken m (some (start, end)) = (start * 4096, mark_range ((end - start) + 1) start m)

taken-AllocatesRun :
    (m : List ℕ) (n : ℕ) (o : Option (ℕ × ℕ))
    → IsBitmap m
    → Window m n o
    → AllocatesRun m n (taken m o).0 (taken m o).1
taken-AllocatesRun m n o h (missing none_free) = no_run none_free
taken-AllocatesRun m n o h (found s e order last inside run first) =
    let count : (e - s) + 1 ≡ n = omega arith in
    let fits : s + n ≤ max_frames = omega arith in
    rw count (
      lowest_run s fits run first (mark_range-IsBitmap n s m h fits)
        (is_used-mark_range n s m h fits))

-- `pmm_alloc_contiguous` for one frame or more, on any bitmap: if there is a run of so many free
-- frames it returns the address of the lowest one and takes its frames and no others; if there is
-- none it returns 0xFFFFFFFF and leaves the bitmap as it is.
pub pmm_alloc_contiguous-AllocatesRun :
    (m : List ℕ) (n : ℕ)
    → IsBitmap m
    → 1 ≤ n
    → AllocatesRun m n (pmm_alloc_contiguous n m).0 (pmm_alloc_contiguous n m).1
unfolding pmm_alloc_contiguous
pmm_alloc_contiguous-AllocatesRun m n h le = taken-AllocatesRun m n _ h (
    window-Window max_frames n 0 0 m refl (omega arith) (omega arith)
      (λ g a b. absurd (omega arith)) (λ s lt run. absurd (omega arith)))
