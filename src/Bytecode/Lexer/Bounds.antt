-- ===== src/Bytecode/Lexer/Bounds.antt =====
-- The lexer of bytecode-vm/compiler.c comes to an end, and its tokens fit their array.
use systems_programming_proj.Prelude.{
  ℕ, zero, suc, ◌≤◌, ◌<◌, Bool, ◌&&◌, Option, none, some, List, [], ◌∷◌, length, ltb, leb, ◌==◌,
  inl, inr, Bool-cases, Option-cases, arith,
}
use systems_programming_proj.Bytecode.Parser.{
  Token, Tokens, Fault, exited, undefined, Parsed, found, fault, ◌>>=◌,
}
use systems_programming_proj.Bytecode.Lexer.{
  isalpha, isdigit, isalnum, isspace, consume, word_of, number_of, lookup, equals, symbols, symbol,
  buffer_size, int_max, atoi, lex_one, put, lex,
}

-- A result that is a fault, or a value with a property.
pub data Settled {ℓ κ} {A : Type ℓ} (good : A → Type κ) : Parsed A → Type (ℓ ⊔ κ) where
  faulted : (e : Fault) → Settled good (fault e)
  good_found : (a : A) → good a → Settled good (found a)

length-consume : (test : ℕ → Bool) (cs : List ℕ) → length (consume test cs).1 ≤ length cs
unfolding consume
length-consume test [] = omega arith
length-consume test (c ∷ cs) = elim (Bool-cases (test c)) [
  | inl e ↦ rw e (omega (arith, length-consume test cs))
  | inr e ↦ rw e (omega arith)
]

-- A round leaves no more text than it found behind its first character.
abbrev Shorter : ℕ → Option Token × List ℕ → Type 0
Shorter n (made, rest) = length rest ≤ n

Settled-bind :
    {A : Type 0} (good : A → Type 0) (p : Parsed A) (n : ℕ) (f : A → Option Token × List ℕ)
    → ((a : A) → good a → length (f a).1 ≤ n)
    → Settled good p
    → Settled (Shorter n) (p >>= λ a. found (f a))
Settled-bind good p n f short (faulted e) = faulted e
Settled-bind good p n f short (good_found a g) = good_found (f a) (short a g)

abbrev Any : Token → Type 0
Any t = Unit

word_of-Settled : (word : List ℕ) → Settled Any (word_of word)
unfolding word_of
word_of-Settled word = elim (Bool-cases (ltb (length word) 32)) [
  | inl e ↦ rw e (good_found _ tt)
  | inr e ↦ rw e (faulted undefined)
]

number_of-Settled : (digits : List ℕ) → Settled Any (number_of digits)
unfolding number_of
number_of-Settled digits =
    elim (Bool-cases (ltb (length digits) buffer_size && leb (atoi digits) int_max)) [
      | inl e ↦ rw e (good_found _ tt)
      | inr e ↦ rw e (faulted undefined)
    ]

length-equals : (rest : List ℕ) → length (equals rest).1 ≤ length rest
unfolding equals
length-equals [] = omega arith
length-equals (c ∷ rest) = elim (Bool-cases (c == b'=')) [
  | inl e ↦ rw e (omega arith)
  | inr e ↦ rw e (omega arith)
]

abbrev NoLonger : ℕ → Token × List ℕ → Type 0
NoLonger n (t, rest) = length rest ≤ n

symbol-Settled : (c : ℕ) (rest : List ℕ) → Settled (NoLonger (length rest)) (symbol c rest)
unfolding symbol
symbol-Settled c rest = elim (Bool-cases (c == b'=')) [
  | inl e ↦ rw e (good_found (equals rest) (length-equals rest))
  | inr e ↦ elim (Option-cases (lookup c symbols)) [
    | inl none_there ↦ rw (e, none_there) (faulted exited)
    | inr (t, there) ↦ rw (e, there) (good_found (t, rest) (omega arith))
  ]
]

lex_one-Settled : (c : ℕ) (cs : List ℕ) → Settled (Shorter (length cs)) (lex_one c cs)
unfolding lex_one
lex_one-Settled c cs = elim (Bool-cases (isalpha c)) [
  | inl e ↦ rw e (
      Settled-bind Any (word_of (c ∷ (consume isalnum cs).0)) (length cs)
        (λ t. (some t, (consume isalnum cs).1)) (λ t _. length-consume isalnum cs)
        (word_of-Settled _))
  | inr e ↦ elim (Bool-cases (isdigit c)) [
    | inl d ↦
        rw (e, d)
          (Settled-bind Any (number_of (c ∷ (consume isdigit cs).0)) (length cs)
            (λ t. (some t, (consume isdigit cs).1)) (λ t _. length-consume isdigit cs)
            (number_of-Settled _))
    | inr d ↦ elim (Bool-cases (isspace c)) [
      | inl s ↦ rw (e, d, s) (good_found (none, cs) (omega arith))
      | inr s ↦
          rw (e, d, s)
            (Settled-bind (NoLonger (length cs)) (symbol c cs) (length cs) (λ a. (some a.0, a.1))
              (λ a g. g) (symbol-Settled c cs))
    ]
  ]
]

abbrev pub AtMost : ℕ → Tokens → Type 0
AtMost n ts = length ts ≤ n

length-put : (made : Option Token) (ts : Tokens) → length (put made ts) ≤ suc (length ts)
length-put none ts = omega arith
length-put (some t) ts = omega arith

put-Settled :
    (n m : ℕ) (made : Option Token) (p : Parsed Tokens)
    → m ≤ n
    → Settled (AtMost m) p
    → Settled (AtMost (suc n)) (p >>= λ ts. found (put made ts))
put-Settled n m made p le (faulted e) = faulted e
put-Settled n m made p le (good_found ts g) =
    good_found (put made ts) (omega (arith, length-put made ts, g))

after_one :
    (fuel : ℕ) (cs : List ℕ) (p : Parsed (Option Token × List ℕ))
    → length cs < fuel
    → ((rest : List ℕ) → length rest < fuel → Settled (AtMost (length rest)) (lex fuel rest))
    → Settled (Shorter (length cs)) p
    → Settled (AtMost (suc (length cs))) (p >>= λ a. lex fuel a.1 >>= λ ts. found (put a.0 ts))
after_one fuel cs p enough shorter (faulted e) = faulted e
after_one fuel cs p enough shorter (good_found a g) =
    put-Settled (length cs) (length a.1) a.0 (lex fuel a.1) g
      (shorter a.1 (omega (arith, enough, g)))

-- `lexer` ends on every text, after at most one round for each byte and one more, and unless it stops
-- with an error or runs over a buffer, the tokens before TOK_EOF are at most as many as the bytes, so
-- they fit the array.
pub lex-Settled :
    (fuel : ℕ) (source : List ℕ)
    → length source < fuel
    → Settled (AtMost (length source)) (lex fuel source)
unfolding lex
lex-Settled zero source enough = absurd (omega arith)
lex-Settled (suc fuel) [] enough = good_found [] (omega arith)
lex-Settled (suc fuel) (c ∷ cs) enough =
    after_one fuel cs (lex_one c cs) (omega arith) (λ rest. lex-Settled fuel rest)
      (lex_one-Settled c cs)
