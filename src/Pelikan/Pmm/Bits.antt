-- ===== src/Pelikan/Pmm/Bits.antt =====
-- The bit operations of pelikanOS/src/pmm.c, on a byte and on the whole bitmap.
use systems_programming_proj.Prelude.{
  if◌then◌else◌, ap, ℕ, zero, suc, ◌<◌, Bool, true, false, ◌&&◌, ◌||◌, not, List, length, get_or,
  set, length-set, get_or-set_self, get_or-set_ne, get_or-set_cases, replicate, length-replicate,
  get_or-replicate_cases, get_or-replicate_below, set-set_self, set-get_or_self, ◌∙◌, Bool-cases,
  ◌/◌, ◌%◌, inl, inr, ◌≢◌, ==_iff, ◌≡◌, refl, sym, ltb, ◌==◌, arith,
}
use mathlib.Core.Bool.{and-eq-true_iff}
use systems_programming_proj.Pelikan.Pmm.{
  has_bit, set_bit, clear_bit, bitmap_size, max_frames, mark, unmark, is_used,
}

-- A test of the numbers from `bound - 1` down to 0.
unfoldable pub every : (bound : ℕ) → (ℕ → Bool) → Bool
every zero test = true
every (suc bound) test = if test bound then every bound test else false

pub every-holds :
    (bound : ℕ) (test : ℕ → Bool) → every bound test ≡ true → (x : ℕ) → x < bound → test x ≡ true
unfolding every
every-holds zero test all x below = absurd (omega arith)
every-holds (suc bound) test all x below =
    let top : test bound ≡ true = ground (arith, all) in
    let others : every bound test ≡ true = ground (arith, all) in
    elim (Bool-cases (bound == x)) [
      | inl e ↦ ap test (sym ((==_iff bound x).0 e)) ∙ top
      | inr e ↦ every-holds bound test others x (ground (arith, e))
    ]

abbrev same : Bool → Bool → Bool
same true b = b
same false b = not b

abbrev set_fact : ℕ → ℕ → ℕ → Bool
set_fact b k j = same (has_bit (set_bit b k) j) ((k == j) || has_bit b j)

abbrev clear_fact : ℕ → ℕ → ℕ → Bool
clear_fact b k j = same (has_bit (clear_bit b k) j) (not (k == j) && has_bit b j)

abbrev bit_facts : ℕ → ℕ → ℕ → Bool
bit_facts b k j = set_fact b k j && clear_fact b k j

abbrev byte_facts : ℕ → ℕ → Bool
byte_facts b k =
    ltb (set_bit b k) 256
    && ltb (clear_bit b k) 256
    && (has_bit b k || (clear_bit (set_bit b k) k == b))

abbrev table : ℕ → Bool
table b = every 8 (λ k. byte_facts b k && every 8 (λ j. bit_facts b k j))

table_holds : every 256 table ≡ true
unfolding every has_bit set_bit clear_bit
table_holds = refl

same→eq : (a b : Bool) → same a b ≡ true → a ≡ b
same→eq true true h = refl
same→eq false false h = refl
same→eq true false h = sym h
same→eq false true h = h

module _ (b k : ℕ) (hb : b < 256) (hk : k < 8) where
  abbrev at : ℕ → Bool
  at k = byte_facts b k && every 8 (λ j. bit_facts b k j)

  row : at k ≡ true
  row = every-holds 8 at (every-holds 256 table table_holds b hb) k hk

  bytes :
      ((set_bit b k < 256) × (clear_bit b k < 256))
      × ((has_bit b k ≡ false) → clear_bit (set_bit b k) k ≡ b)
  bytes = ground (arith, row)

  pub set_bit-byte : set_bit b k < 256
  set_bit-byte = bytes.0.0

  pub clear_bit-byte : clear_bit b k < 256
  clear_bit-byte = bytes.0.1

  pub clear_bit-set_bit : has_bit b k ≡ false → clear_bit (set_bit b k) k ≡ b
  clear_bit-set_bit = bytes.1

  bits : (j : ℕ) → j < 8 → bit_facts b k j ≡ true
  bits j hj = every-holds 8 (bit_facts b k) ((and-eq-true_iff (byte_facts b k) _).0 row).1 j hj

  pub has_bit-set_bit : (j : ℕ) → j < 8 → has_bit (set_bit b k) j ≡ ((k == j) || has_bit b j)
  has_bit-set_bit j hj =
      same→eq _ _ ((and-eq-true_iff (set_fact b k j) (clear_fact b k j)).0 (bits j hj)).0

  pub has_bit-clear_bit :
      (j : ℕ) → j < 8 → has_bit (clear_bit b k) j ≡ (not (k == j) && has_bit b j)
  has_bit-clear_bit j hj =
      same→eq _ _ ((and-eq-true_iff (set_fact b k j) (clear_fact b k j)).0 (bits j hj)).1

-- The bitmap as the array is declared: its bytes, and as many as there are.
pub record IsBitmap (m : List ℕ) : Type 0 where
  pub sized : length m ≡ bitmap_size
  pub bytes : (i : ℕ) → get_or m i 0 < 256

-- A byte of the bitmap replaced.
set-IsBitmap : (m : List ℕ) (i b : ℕ) → IsBitmap m → b < 256 → IsBitmap (set m i b)
set-IsBitmap m i b h hb = record {
  sized = length-set m i b ∙ h.sized;
  bytes = λ j. elim (get_or-set_cases m i j b 0) [ inl e ↦ rw e hb | inr e ↦ rw e (h.bytes j) ];
}

module _ (m : List ℕ) (h : IsBitmap m) (f : ℕ) (hf : f < max_frames) where
  k<8 : f % 8 < 8
  k<8 = omega arith

  inside : f / 8 < length m
  inside = omega (arith, h.sized)

  pub mark-IsBitmap : IsBitmap (mark f m)
  unfolding mark
  mark-IsBitmap = set-IsBitmap m _ _ h (set_bit-byte _ _ (h.bytes _) k<8)

  pub unmark-IsBitmap : IsBitmap (unmark f m)
  unfolding unmark
  unmark-IsBitmap = set-IsBitmap m _ _ h (clear_bit-byte _ _ (h.bytes _) k<8)

  same_byte : (g : ℕ) → f / 8 ≡ g / 8 → (f % 8 == g % 8) ≡ (f == g)
  same_byte g e = ground arith

  other_byte : (g : ℕ) → f / 8 ≢ g / 8 → (f == g) ≡ false
  other_byte g e = ground arith

  pub is_used-mark : (g : ℕ) → is_used g (mark f m) ≡ ((f == g) || is_used g m)
  unfolding mark is_used
  is_used-mark g = elim (Bool-cases (f / 8 == g / 8)) [
    | inl e ↦
        let e' : f / 8 ≡ g / 8 = (==_iff _ _).0 e in
        rw
          (
            sym e',
            get_or-set_self m (f / 8) (set_bit (get_or m (f / 8) 0) (f % 8)) 0 inside,
            has_bit-set_bit (get_or m (f / 8) 0) (f % 8) (h.bytes (f / 8)) k<8 (g % 8)
                (omega arith),
            same_byte g e',
          )
          refl
    | inr e ↦
        let e' : f / 8 ≢ g / 8 = ground (arith, e) in
        rw (get_or-set_ne m _ (g / 8) (set_bit (get_or m (f / 8) 0) (f % 8)) 0 e', other_byte g e')
          refl
  ]

  pub is_used-unmark : (g : ℕ) → is_used g (unmark f m) ≡ (not (f == g) && is_used g m)
  unfolding unmark is_used
  is_used-unmark g = elim (Bool-cases (f / 8 == g / 8)) [
    | inl e ↦
        let e' : f / 8 ≡ g / 8 = (==_iff _ _).0 e in
        rw
          (
            sym e',
            get_or-set_self m (f / 8) (clear_bit (get_or m (f / 8) 0) (f % 8)) 0 inside,
            has_bit-clear_bit (get_or m (f / 8) 0) (f % 8) (h.bytes (f / 8)) k<8 (g % 8)
                (omega arith),
            same_byte g e',
          )
          refl
    | inr e ↦
        let e' : f / 8 ≢ g / 8 = ground (arith, e) in
        rw
          (get_or-set_ne m _ (g / 8) (clear_bit (get_or m (f / 8) 0) (f % 8)) 0 e', other_byte g e')
          refl
  ]

  pub unmark-mark : is_used f m ≡ false → unmark f (mark f m) ≡ m
  unfolding mark unmark is_used
  unmark-mark free =
      rw
        (
          get_or-set_self m (f / 8) (set_bit (get_or m (f / 8) 0) (f % 8)) 0 inside,
          set-set_self m (f / 8) (set_bit (get_or m (f / 8) 0) (f % 8)) _,
          clear_bit-set_bit (get_or m (f / 8) 0) (f % 8) (h.bytes (f / 8)) k<8 free,
        )
        (set-get_or_self m (f / 8) 0)

full : every 8 (has_bit 0xff) ≡ true
unfolding every has_bit
full = refl

-- A bitmap filled with ones.
pub full-IsBitmap : IsBitmap (replicate bitmap_size 0xff)
full-IsBitmap = record {
  sized = length-replicate {A = ℕ} bitmap_size 0xff;
  bytes = λ i. elim (get_or-replicate_cases {A = ℕ} bitmap_size i 0xff 0) [
    | inl e ↦ rw e (omega arith)
    | inr e ↦ rw e (omega arith)
  ];
}

pub is_used-full : (g : ℕ) → g < max_frames → is_used g (replicate bitmap_size 0xff) ≡ true
unfolding is_used
is_used-full g lt =
    let below : g / 8 < bitmap_size = omega arith in
    rw (get_or-replicate_below {A = ℕ} bitmap_size (g / 8) 0xff 0 below)
      (every-holds 8 (has_bit 0xff) full (g % 8) (omega arith))
