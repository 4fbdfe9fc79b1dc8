-- ===== src/Pelikan/Pmm/Spans.antt =====
-- The loops of pelikanOS/src/pmm.c from one frame up to another, on all bits of the bitmap.
use systems_programming_proj.Prelude.{
  ℕ, ◌+◌, ◌-◌, ◌<◌, ◌≤◌, Bool, false, ◌&&◌, ◌||◌, not, List, ◌≡◌, refl, ◌∙◌, inl, inr, ltb, leb,
  Bool-cases, arith,
}
use systems_programming_proj.Pelikan.Pmm.{is_used, max_frames, mark_range, unmark_range}
use systems_programming_proj.Pelikan.Pmm.Bits.{IsBitmap}
use systems_programming_proj.Pelikan.Pmm.Ranges.{
  in_range, mark_range-IsBitmap, is_used-mark_range, unmark_range-IsBitmap, is_used-unmark_range,
}

-- From one frame up to another, which is left out.
abbrev pub in_span : (first last g : ℕ) → Bool
in_span first last g = leb first g && ltb g last

in_range-span : (first last g : ℕ) → in_range first (last - first) g ≡ in_span first last g
unfolding in_range
in_range-span first last g = ground arith

empty_span : (first last : ℕ) → leb first last ≡ false → last - first ≡ 0
empty_span first last e = ground (arith, e)

empty_in_span : (first last g : ℕ) → leb first last ≡ false → in_span first last g ≡ false
empty_in_span first last g e = ground (arith, e)

-- A bitmap and the value of each of its bits.
pub record Shows (m : List ℕ) (used : ℕ → Bool) : Type 0 where
  pub bitmap : IsBitmap m
  pub shows : (g : ℕ) → g < max_frames → is_used g m ≡ used g

pub mark_span :
    (first last : ℕ) (m : List ℕ) (used : ℕ → Bool)
    → last ≤ max_frames
    → Shows m used
    → Shows (mark_range (last - first) first m) (λ g. in_span first last g || used g)
unfolding mark_range
mark_span first last m used le h = elim (Bool-cases (leb first last)) [
  | inl e ↦
      let fits : first + (last - first) ≤ max_frames = ground (arith, e) in
      record {
        bitmap = mark_range-IsBitmap (last - first) first m h.bitmap fits;
        shows = λ g lt.
            is_used-mark_range (last - first) first m h.bitmap fits g
            ∙ rw (in_range-span first last g, h.shows g lt) refl;
      }
  | inr e ↦ rw (empty_span first last e) (record {
    bitmap = h.bitmap;
    shows = λ g lt. rw (empty_in_span first last g e) (h.shows g lt);
  })
]

pub unmark_span :
    (first last : ℕ) (m : List ℕ) (used : ℕ → Bool)
    → last ≤ max_frames
    → Shows m used
    → Shows (unmark_range (last - first) first m) (λ g. not (in_span first last g) && used g)
unfolding unmark_range
unmark_span first last m used le h = elim (Bool-cases (leb first last)) [
  | inl e ↦
      let fits : first + (last - first) ≤ max_frames = ground (arith, e) in
      record {
        bitmap = unmark_range-IsBitmap (last - first) first m h.bitmap fits;
        shows = λ g lt.
            is_used-unmark_range (last - first) first m h.bitmap fits g
            ∙ rw (in_range-span first last g, h.shows g lt) refl;
      }
  | inr e ↦ rw (empty_span first last e) (record {
    bitmap = h.bitmap;
    shows = λ g lt. rw (empty_in_span first last g e) (h.shows g lt);
  })
]
