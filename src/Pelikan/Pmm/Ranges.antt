-- ===== src/Pelikan/Pmm/Ranges.antt =====
-- The loops of pelikanOS/src/pmm.c that mark or free consecutive frames.
use systems_programming_proj.Prelude.{
  ℕ, zero, suc, ◌+◌, ◌<◌, ◌≤◌, Bool, true, false, ◌&&◌, ◌||◌, not, List, ◌≡◌, refl, ltb, leb, ◌==◌,
  arith,
}
use systems_programming_proj.Pelikan.Pmm.{
  is_used, mark, unmark, max_frames, mark_range, unmark_range,
}
use systems_programming_proj.Pelikan.Pmm.Bits.{
  IsBitmap, mark-IsBitmap, unmark-IsBitmap, is_used-mark, is_used-unmark,
}

-- From a frame on, as many as counted.
unfoldable pub in_range : (frame count g : ℕ) → Bool
in_range frame count g = leb frame g && ltb g (frame + count)

pub in_range-true :
    (frame count g : ℕ) → frame ≤ g → g < frame + count → in_range frame count g ≡ true
unfolding in_range
in_range-true frame count g le lt = ground arith

in_range-zero : (frame g : ℕ) → in_range frame 0 g ≡ false
unfolding in_range
in_range-zero frame g = ground arith

in_range-suc :
    (frame count g : ℕ)
    → in_range frame (suc count) g ≡ ((frame == g) || in_range (suc frame) count g)
unfolding in_range
in_range-suc frame count g = ground arith

mark_once : (a b c : Bool) → (b || (a || c)) ≡ ((a || b) || c)
mark_once true true c = refl
mark_once true false c = refl
mark_once false b c = refl

unmark_once : (a b c : Bool) → (not b && (not a && c)) ≡ (not (a || b) && c)
unmark_once true true c = refl
unmark_once true false c = refl
unmark_once false b c = refl

pub mark_range-IsBitmap :
    (count frame : ℕ) (m : List ℕ)
    → IsBitmap m
    → frame + count ≤ max_frames
    → IsBitmap (mark_range count frame m)
unfolding mark_range
mark_range-IsBitmap zero frame m h le = h
mark_range-IsBitmap (suc count) frame m h le =
    mark_range-IsBitmap count (suc frame) _ (mark-IsBitmap m h frame (omega arith)) (omega arith)

pub is_used-mark_range :
    (count frame : ℕ) (m : List ℕ)
    → IsBitmap m
    → frame + count ≤ max_frames
    → (g : ℕ) → is_used g (mark_range count frame m) ≡ (in_range frame count g || is_used g m)
unfolding mark_range
is_used-mark_range zero frame m h le g = rw (in_range-zero frame g) refl
is_used-mark_range (suc count) frame m h le g =
    let lt : frame < max_frames = omega arith in
    rw
      (
        is_used-mark_range count (suc frame) (mark frame m) (mark-IsBitmap m h frame lt)
            (omega arith) g,
        is_used-mark m h frame lt g,
        in_range-suc frame count g,
      )
      (mark_once (frame == g) (in_range (suc frame) count g) (is_used g m))

pub unmark_range-IsBitmap :
    (count frame : ℕ) (m : List ℕ)
    → IsBitmap m
    → frame + count ≤ max_frames
    → IsBitmap (unmark_range count frame m)
unfolding unmark_range
unmark_range-IsBitmap zero frame m h le = h
unmark_range-IsBitmap (suc count) frame m h le =
    unmark_range-IsBitmap count (suc frame) _ (unmark-IsBitmap m h frame (omega arith))
      (omega arith)

pub is_used-unmark_range :
    (count frame : ℕ) (m : List ℕ)
    → IsBitmap m
    → frame + count ≤ max_frames
    → (g : ℕ)
    → is_used g (unmark_range count frame m) ≡ (not (in_range frame count g) && is_used g m)
unfolding unmark_range
is_used-unmark_range zero frame m h le g = rw (in_range-zero frame g) refl
is_used-unmark_range (suc count) frame m h le g =
    let lt : frame < max_frames = omega arith in
    rw
      (
        is_used-unmark_range count (suc frame) (unmark frame m) (unmark-IsBitmap m h frame lt)
            (omega arith) g,
        is_used-unmark m h frame lt g,
        in_range-suc frame count g,
      )
      (unmark_once (frame == g) (in_range (suc frame) count g) (is_used g m))
