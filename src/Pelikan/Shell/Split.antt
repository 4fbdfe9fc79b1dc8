-- ===== src/Pelikan/Shell/Split.antt =====
-- How `dispatch` of pelikanOS/src/shell.c splits a line.
use systems_programming_proj.Prelude.{
  ℕ, zero, suc, ◌+◌, ◌<◌, ◌≤◌, Bool, true, false, List, [], ◌∷◌, ◌++◌, length, get_or, set,
  get_or-set_self, get_or-set_ne, ◌==◌, ==_iff, ◌≡◌, refl, sym, ap, ◌∙◌, inl, inr, Bool-cases,
  if◌then◌else◌, arith,
}
use systems_programming_proj.Pelikan.Cstring.Laws.{NoNul}
use systems_programming_proj.Pelikan.Shell.{word_from, rest_from, command_word, argument}

-- From an index on the buffer holds the bytes of the string and then NUL.
abbrev pub Spells : List ℕ → ℕ → List ℕ → Type 0
Spells b i [] = get_or b i 0 ≡ 0
Spells b i (c ∷ s) = (get_or b i 0 ≡ c) × Spells b (suc i) s

-- A line is a word and, behind the first space, its argument.
unfoldable pub first_word : List ℕ → List ℕ
first_word [] = []
first_word (c ∷ s) = let rest = first_word s in if c == 32 then [] else c ∷ rest

unfoldable pub after_space : List ℕ → List ℕ
after_space [] = []
after_space (c ∷ s) = let rest = after_space s in if c == 32 then s else rest

word_from-first_word :
    (remaining i : ℕ) (b s : List ℕ)
    → length s ≤ remaining
    → NoNul s
    → Spells b i s
    → word_from remaining i b ≡ first_word s
unfolding word_from first_word
word_from-first_word zero i b [] le nonul h = refl
word_from-first_word (suc remaining) i b [] le nonul h =
    let e : (get_or b i 0 == 0) ≡ true = (==_iff _ 0).1 h in rw e refl
word_from-first_word zero i b (c ∷ s) le nonul h = absurd (omega arith)
word_from-first_word (suc remaining) i b (c ∷ s) le nonul h =
    let rest = word_from-first_word remaining (suc i) b s (omega arith) nonul.1 h.1 in
    let full : (c == 0) ≡ false = ground (arith, nonul.0) in
    elim (Bool-cases (c == 32)) [
      | inl e ↦ rw (h.0, full, e) refl
      | inr e ↦ rw (h.0, full, e) (ap (λ l. c ∷ l) rest)
    ]

rest_from-Spells :
    (remaining i : ℕ) (b s : List ℕ)
    → length s ≤ remaining
    → NoNul s
    → Spells b i s
    → rest_from remaining i b ≡ s
unfolding rest_from
rest_from-Spells zero i b [] le nonul h = refl
rest_from-Spells (suc remaining) i b [] le nonul h =
    let e : (get_or b i 0 == 0) ≡ true = (==_iff _ 0).1 h in rw e refl
rest_from-Spells zero i b (c ∷ s) le nonul h = absurd (omega arith)
rest_from-Spells (suc remaining) i b (c ∷ s) le nonul h =
    let rest = rest_from-Spells remaining (suc i) b s (omega arith) nonul.1 h.1 in
    let full : (c == 0) ≡ false = ground (arith, nonul.0) in rw (h.0, full) (ap (λ l. c ∷ l) rest)

abbrev letters : Bool → ℕ → List ℕ → List ℕ
letters stop c rest = if stop then [] else c ∷ rest

at_space :
    (c : ℕ) (rest : List ℕ) (i m : ℕ)
    → (c == 32) ≡ true
    → m ≡ i + length (letters (c == 32) c rest)
    → m ≡ i
at_space c rest i m e at = at ∙ (ap (λ t. i + length (letters t c rest)) e ∙ omega arith)

at_letter :
    (c : ℕ) (rest : List ℕ) (i m : ℕ)
    → (c == 32) ≡ false
    → m ≡ i + length (letters (c == 32) c rest)
    → m ≡ suc i + length rest
at_letter c rest i m e at = at ∙ (ap (λ t. i + length (letters t c rest)) e ∙ omega arith)

-- What stands behind the first word: a space and the argument, or the end.
behind_word :
    (b s : List ℕ) (i m : ℕ)
    → m ≡ i + length (first_word s)
    → length s ≤ 128
    → NoNul s
    → Spells b i s
    → (if get_or b m 0 == 32 then rest_from 128 (suc m) b else []) ≡ after_space s
unfolding first_word after_space
behind_word b [] i m at le nonul h =
    let here : get_or b m 0 ≡ 0 = ap (λ j. get_or b j 0) (omega (arith, at)) ∙ h in rw here refl
behind_word b (c ∷ s) i m at le nonul h = elim (Bool-cases (c == 32)) [
  | inl e ↦
      let here : m ≡ i = omega (arith, at_space c (first_word s) i m e at) in
      let space : (get_or b m 0 == 32) ≡ true =
        (==_iff _ 32).1 (ap (λ j. get_or b j 0) here ∙ (h.0 ∙ (==_iff c 32).0 e)) in
      rw (space, e)
        (ap (λ j. rest_from 128 (suc j) b) here
          ∙ rest_from-Spells 128 (suc i) b s (omega arith) nonul.1 h.1)
  | inr e ↦
      let further : m ≡ suc i + length (first_word s) =
        omega (arith, at_letter c (first_word s) i m e at) in
      rw e (behind_word b s (suc i) m further (omega arith) nonul.1 h.1)
]

-- A line of at most 128 characters in the buffer: the command is its first word.
pub command_word-first_word :
    (b s : List ℕ) → length s ≤ 128 → NoNul s → Spells b 0 s → command_word b ≡ first_word s
unfolding command_word
command_word-first_word b s le nonul h = word_from-first_word 128 0 b s le nonul h

pub argument-after_space :
    (b s : List ℕ) → length s ≤ 128 → NoNul s → Spells b 0 s → argument b ≡ after_space s
unfolding argument
argument-after_space b s le nonul h =
    behind_word b s 0 (length (command_word b))
      (ap length (command_word-first_word b s le nonul h) ∙ omega arith) le nonul h

-- A byte is written behind the string, where NULs follow.
pub Spells-snoc :
    (b s : List ℕ) (c i n : ℕ)
    → n ≡ i + length s
    → n < length b
    → get_or b (suc n) 0 ≡ 0
    → Spells b i s
    → Spells (set b n c) i (s ++ c ∷ [])
Spells-snoc b [] c i n at room nul h =
    let here : n ≡ i = omega (arith, at) in
    (
      ap (λ j. get_or (set b n c) j 0) (sym here) ∙ get_or-set_self b n c 0 room,
      ap (λ j. get_or (set b n c) (suc j) 0) (sym here)
          ∙ (get_or-set_ne b n (suc n) c 0 (λ e. omega (arith, e)) ∙ nul),
    )
Spells-snoc b (d ∷ s) c i n at room nul h = (
  get_or-set_ne b n i c 0 (λ e. omega (arith, e, at)) ∙ h.0,
  Spells-snoc b s c (suc i) n (omega (arith, at)) room nul h.1,
)
