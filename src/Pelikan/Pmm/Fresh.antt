-- ===== src/Pelikan/Pmm/Fresh.antt =====
-- What a client of `pmm_alloc_frame` in pelikanOS/src/pmm.c knows of a frame that it got.
use systems_programming_proj.Prelude.{
  ℕ, ◌*◌, ◌<◌, Bool, true, false, ◌||◌, List, ◌≡◌, refl, sym, ap, ◌∙◌, ◌≢◌, ◌==◌, ==_iff, arith,
}
use systems_programming_proj.Pelikan.Pmm.{is_used, max_frames, no_frame, pmm_alloc_frame}
use systems_programming_proj.Pelikan.Pmm.Bits.{IsBitmap}
use systems_programming_proj.Pelikan.Pmm.Alloc.{
  Allocates, exhausted, lowest, pmm_alloc_frame-Allocates,
}

-- A frame that `pmm_alloc_frame` gave.
pub record Fresh (m : List ℕ) (addr : ℕ) (m' : List ℕ) : Type 0 where
  pub f : ℕ
  pub at : addr ≡ f * 4096
  pub below : f < max_frames
  pub nonzero : f ≢ 0
  pub free : is_used f m ≡ false
  pub bitmap : IsBitmap m'
  pub more : (g : ℕ) → is_used g m ≡ true → is_used g m' ≡ true
  pub self : is_used f m' ≡ true

pub or_right : (b c : Bool) → c ≡ true → (b || c) ≡ true
or_right true c e = refl
or_right false c e = e

pub Allocates-Fresh :
    {m m' : List ℕ} {addr : ℕ}
    → is_used 0 m ≡ true
    → Allocates m addr m'
    → addr ≢ no_frame
    → Fresh m addr m'
Allocates-Fresh first (exhausted _) ne = absurd (ne refl)
Allocates-Fresh {m = m} first (lowest f lt free below bitmap used back) ne = record {
  f = f;
  at = refl;
  below = lt;
  nonzero = λ e.
      let clash : true ≡ false = sym first ∙ (ap (λ i. is_used i m) (sym e) ∙ free) in
      ground (arith, clash);
  free = free;
  bitmap = bitmap;
  more = λ g e. used g ∙ or_right (f == g) (is_used g m) e;
  self = used f ∙ ap (λ b. b || is_used f m) ((==_iff f f).1 refl);
}

pub pmm_alloc_frame-Fresh :
    (m : List ℕ)
    → IsBitmap m
    → is_used 0 m ≡ true
    → (pmm_alloc_frame m).0 ≢ no_frame
    → Fresh m (pmm_alloc_frame m).0 (pmm_alloc_frame m).1
pmm_alloc_frame-Fresh m bitmap first ne =
    Allocates-Fresh first (pmm_alloc_frame-Allocates m bitmap) ne
