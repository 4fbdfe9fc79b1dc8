-- ===== src/Pelikan/Cstring/Laws.antt =====
-- What the routines of pelikanOS/src/string.c compute.
use systems_programming_proj.Prelude.{
  ℕ, zero, suc, ◌+◌, ◌<◌, ◌≤◌, true, false, Option, some, List, [], ◌∷◌, length, get_or, set,
  length-set, get_or-set_self, get_or-set_ne, ◌≡◌, refl, sym, ap, ◌∙◌, ◌≢◌, ltb, lt→ltb, inl, inr,
  ◌==◌, ==_iff, Bool-cases, arith,
}
use mathlib.Core.Path.{subst}
use systems_programming_proj.Prelude.{bytes_eq}
use systems_programming_proj.Prelude.Int.{pos, ◌-ℤ◌, eq_ℤ}
use systems_programming_proj.Pelikan.Cstring.{memset_from, memset, memcpy_from, memcpy, strcmp}

-- The first bytes are those of a source, the others as before.
pub record Copied (source : ℕ → ℕ) (before : List ℕ) (size : ℕ) (after : List ℕ) : Type 0 where
  pub sized : length after ≡ length before
  pub copied : (j : ℕ) → j < size → get_or after j 0 ≡ source j
  pub kept : (j : ℕ) → size ≤ j → get_or after j 0 ≡ get_or before j 0

Copied-suc :
    (source : ℕ → ℕ) (before buf : List ℕ) (i : ℕ)
    → i < length before
    → Copied source before i buf
    → Copied source before (suc i) (set buf i (source i))
Copied-suc source before buf i inside h = record {
  sized = length-set buf i (source i) ∙ h.sized;
  copied = λ j lt. elim (Bool-cases (i == j)) [
    | inl e ↦
        let eq : i ≡ j = (==_iff i j).0 e in
        ap (λ k. get_or (set buf i (source i)) k 0) (sym eq)
        ∙ (get_or-set_self buf i (source i) 0 (omega (arith, h.sized)) ∙ ap source eq)
    | inr e ↦
        let ne : i ≢ j = ground (arith, e) in
        get_or-set_ne buf i j (source i) 0 ne ∙ h.copied j (omega (arith, ne))
  ];
  kept =
      λ j le. get_or-set_ne buf i j (source i) 0 (λ e. omega (arith, e)) ∙ h.kept j (omega arith);
}

-- The call succeeds, and the first bytes are those of a source.
abbrev pub Fills : (source : ℕ → ℕ) (before : List ℕ) (size : ℕ) → Option (List ℕ) → Type 0
Fills source before size o = (after : List ℕ) × ((o ≡ some after) × Copied source before size after)

memset_from-Fills :
    (val : ℕ) (before : List ℕ) (remaining i total : ℕ) (buf : List ℕ)
    → remaining + i ≡ total
    → total ≤ length before
    → Copied (λ j. val) before i buf
    → Fills (λ j. val) before total (memset_from remaining i val buf)
unfolding memset_from
memset_from-Fills val before zero i total buf e fits h =
    let same : i ≡ total = omega (arith, e) in
    (buf, (refl, subst (λ n. Copied (λ j. val) before n buf) same h))
memset_from-Fills val before (suc remaining) i total buf e fits h =
    let inside : ltb i (length buf) ≡ true =
      lt→ltb i (length buf) (omega (arith, e, fits, h.sized)) in
    rw inside (
      memset_from-Fills val before remaining (suc i) total (set buf i val) (omega (arith, e)) fits
        (Copied-suc (λ j. val) before buf i (omega (arith, e, fits)) h))

memcpy_from-Fills :
    (src before : List ℕ) (remaining i total : ℕ) (buf : List ℕ)
    → remaining + i ≡ total
    → total ≤ length before
    → total ≤ length src
    → Copied (λ j. get_or src j 0) before i buf
    → Fills (λ j. get_or src j 0) before total (memcpy_from remaining i buf src)
unfolding memcpy_from
memcpy_from-Fills src before zero i total buf e fits read h =
    let same : i ≡ total = omega (arith, e) in
    (buf, (refl, subst (λ n. Copied (λ j. get_or src j 0) before n buf) same h))
memcpy_from-Fills src before (suc remaining) i total buf e fits read h =
    let inside : ltb i (length buf) ≡ true =
      lt→ltb i (length buf) (omega (arith, e, fits, h.sized)) in
    let from : ltb i (length src) ≡ true = lt→ltb i (length src) (omega (arith, e, read)) in
    rw (from, inside)
      (memcpy_from-Fills src before remaining (suc i) total (set buf i (get_or src i 0))
        (omega (arith, e)) fits read
        (Copied-suc (λ j. get_or src j 0) before buf i (omega (arith, e, fits)) h))

nothing-Copied : (source : ℕ → ℕ) (buf : List ℕ) → Copied source buf 0 buf
nothing-Copied source buf = record {
  sized = refl;
  copied = λ j lt. absurd (omega arith);
  kept = λ j le. refl;
}

pub memset-Copied :
    (dest : List ℕ) (val size : ℕ)
    → size ≤ length dest
    → Fills (λ j. val) dest size (memset dest val size)
unfolding memset
memset-Copied dest val size fits =
    memset_from-Fills val dest size 0 size dest (omega arith) fits (nothing-Copied (λ j. val) dest)

-- `memset` for a size that the destination has, and `memcpy` for one that the destination and the
-- source have: the call succeeds, the first bytes are the value, or those of the source, and the
-- bytes behind them are as they were.
pub memset-memcpy-Copied :
    (dest src : List ℕ) (val size : ℕ)
    → size ≤ length dest
    → size ≤ length src
    → Fills (λ j. val) dest size (memset dest val size)
      × Fills (λ j. get_or src j 0) dest size (memcpy dest src size)
unfolding memcpy
memset-memcpy-Copied dest src val size fits read = (
  memset-Copied dest val size fits,
  memcpy_from-Fills src dest size 0 size dest (omega arith) fits read
      (nothing-Copied (λ j. get_or src j 0) dest),
)

-- No byte is NUL.
abbrev pub NoNul : List ℕ → Type 0
NoNul [] = Unit
NoNul (x ∷ xs) = (x ≢ 0) × NoNul xs

difference : (x y : ℕ) → x ≢ y → eq_ℤ (pos x -ℤ pos y) (pos 0) ≡ false
unfolding ◌-ℤ◌
difference x y ne = ground arith

-- `strcmp` on strings without a NUL inside is 0 exactly if they are the same.
pub strcmp-bytes_eq : (a b : List ℕ) → NoNul a → NoNul b → eq_ℤ (strcmp a b) (pos 0) ≡ bytes_eq a b
unfolding strcmp bytes_eq
strcmp-bytes_eq [] [] ha hb = refl
strcmp-bytes_eq [] (y ∷ ys) ha hb = difference 0 y (λ e. hb.0 (sym e))
strcmp-bytes_eq (x ∷ xs) [] ha hb = difference x 0 ha.0
strcmp-bytes_eq (x ∷ xs) (y ∷ ys) ha hb = elim (Bool-cases (x == y)) [
  | inl e ↦ rw e (strcmp-bytes_eq xs ys ha.1 hb.1)
  | inr e ↦ let ne : x ≢ y = ground (arith, e) in rw e (difference x y ne)
]
