-- ===== src/Pelikan/Itoa/Value.antt =====
-- What the digits of pelikanOS/src/itoa.c stand for.
use systems_programming_proj.Prelude.{
  ℕ, zero, suc, ◌+◌, ◌-◌, ◌*◌, ◌/◌, ◌<◌, ◌≤◌, List, [], ◌∷◌, ◌++◌, length, get_or, length-append,
  ◌≡◌, refl, ap, ◌∙◌, inl, inr, ◌==◌, ==_iff, Bool-cases, arith,
}
use systems_programming_proj.Pelikan.Itoa.{digits_from}

-- The number that digits stand for, the highest first, after the digits already read.
unfoldable pub value_from : ℕ → List ℕ → ℕ
value_from acc [] = acc
value_from acc (c ∷ cs) = value_from (acc * 10 + (c - b'0')) cs

unfoldable pub low_first : List ℕ → ℕ
low_first [] = 0
low_first (c ∷ cs) = (c - b'0') + 10 * low_first cs

abbrev pub pow10 : ℕ → ℕ
pow10 zero = 1
pow10 (suc n) = 10 * pow10 n

pub low_first-digits_from :
    (fuel num : ℕ) → num < pow10 fuel → low_first (digits_from fuel num) ≡ num
unfolding low_first digits_from
low_first-digits_from zero num lt = omega arith
low_first-digits_from (suc fuel) num lt = elim (Bool-cases (num / 10 == 0)) [
  | inl e ↦ rw e (omega (arith, (==_iff (num / 10) 0).0 e))
  | inr e ↦ rw e (omega (arith, low_first-digits_from fuel (num / 10) (omega (arith, lt))))
]

pub length-digits_from : (fuel num : ℕ) → length (digits_from fuel num) ≤ fuel
unfolding digits_from
length-digits_from zero num = omega arith
length-digits_from (suc fuel) num = elim (Bool-cases (num / 10 == 0)) [
  | inl e ↦ rw e (omega arith)
  | inr e ↦ rw e (omega (arith, length-digits_from fuel (num / 10)))
]

unfoldable pub backwards : List ℕ → List ℕ
backwards [] = []
backwards (x ∷ xs) = backwards xs ++ x ∷ []

value_from-append :
    (acc : ℕ) (xs : List ℕ) (c : ℕ)
    → value_from acc (xs ++ c ∷ []) ≡ value_from acc xs * 10 + (c - b'0')
unfolding value_from
value_from-append acc [] c = refl
value_from-append acc (x ∷ xs) c = value_from-append (acc * 10 + (x - b'0')) xs c

pub value_from-backwards : (xs : List ℕ) → value_from 0 (backwards xs) ≡ low_first xs
unfolding backwards low_first value_from
value_from-backwards [] = refl
value_from-backwards (x ∷ xs) =
    omega (arith, value_from-append 0 (backwards xs) x, value_from-backwards xs)

pub length-backwards : (xs : List ℕ) → length (backwards xs) ≡ length xs
unfolding backwards
length-backwards [] = refl
length-backwards (x ∷ xs) =
    omega (arith, length-append (backwards xs) (x ∷ []), length-backwards xs)

get_or-append_left :
    (xs ys : List ℕ) (i : ℕ) → i < length xs → get_or (xs ++ ys) i 0 ≡ get_or xs i 0
get_or-append_left [] ys i lt = absurd (omega arith)
get_or-append_left (x ∷ xs) ys zero lt = refl
get_or-append_left (x ∷ xs) ys (suc i) lt = get_or-append_left xs ys i (omega arith)

get_or-append_last : (xs : List ℕ) (c : ℕ) → get_or (xs ++ c ∷ []) (length xs) 0 ≡ c
get_or-append_last [] c = refl
get_or-append_last (x ∷ xs) c = get_or-append_last xs c

-- The places of a list from its end.
pub get_or-backwards :
    (xs : List ℕ) (i j : ℕ) → suc (i + j) ≡ length xs → get_or (backwards xs) i 0 ≡ get_or xs j 0
unfolding backwards
get_or-backwards [] i j e = absurd (omega arith)
get_or-backwards (x ∷ xs) i zero e =
    let last : i ≡ length (backwards xs) = omega (arith, e, length-backwards xs) in
    ap (λ k. get_or (backwards xs ++ x ∷ []) k 0) last ∙ get_or-append_last (backwards xs) x
get_or-backwards (x ∷ xs) i (suc j) e =
    get_or-append_left (backwards xs) (x ∷ []) i (omega (arith, e, length-backwards xs))
    ∙ get_or-backwards xs i j (omega (arith, e))

pub same_places :
    (xs ys : List ℕ)
    → length xs ≡ length ys
    → ((i : ℕ) → i < length xs → get_or xs i 0 ≡ get_or ys i 0)
    → xs ≡ ys
same_places [] [] e h = refl
same_places [] (y ∷ ys) e h = absurd (omega arith)
same_places (x ∷ xs) [] e h = absurd (omega arith)
same_places (x ∷ xs) (y ∷ ys) e h =
    ap (λ a. a ∷ xs) (h 0 (omega arith))
    ∙ ap (λ l. y ∷ l) (same_places xs ys (omega (arith, e)) (λ i lt. h (suc i) (omega arith)))
