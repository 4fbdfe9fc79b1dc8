-- ===== src/Pelikan/Hex.antt =====
-- `print_hex` of pelikanOS/src/vga.c: the eight hexadecimal digits of a number of 32 bits,
-- without the zero byte behind them.
use systems_programming_proj.Prelude.{
  ℕ, zero, suc, ◌+◌, ◌-◌, ◌*◌, ◌/◌, ◌%◌, ◌^◌, ◌<◌, List, [], ◌∷◌, leb, if◌then◌else◌, ◌≡◌, inl, inr,
  Bool-cases, arith,
}

abbrev pub hex_digit : ℕ → ℕ
hex_digit nibble = if leb nibble 9 then b'0' + nibble else (nibble - 10) + b'A'

-- The loop from `remaining - 1` down to 0; the buffer is filled from its beginning.
unfoldable pub hex_from : (remaining num : ℕ) → List ℕ
hex_from zero num = []
hex_from (suc i) num = hex_digit (num / 16 ^ i % 16) ∷ hex_from i num

unfoldable pub print_hex : ℕ → List ℕ
print_hex num = hex_from 8 num

-- What a digit stands for, and the number that digits make after one read so far.
unfoldable pub digit_value : ℕ → ℕ
digit_value c = if leb c b'9' then c - b'0' else (c - b'A') + 10

unfoldable pub hex_value : ℕ → List ℕ → ℕ
hex_value so_far [] = so_far
hex_value so_far (c ∷ cs) = hex_value (so_far * 16 + digit_value c) cs

digit_value-hex_digit : (n : ℕ) → n < 16 → digit_value (hex_digit n) ≡ n
unfolding digit_value
digit_value-hex_digit n lt = elim (Bool-cases (leb n 9)) [
  | inl e ↦ rw e ground (arith, e)
  | inr e ↦ rw e ground (arith, e, lt)
]

-- A number of eight hexadecimal digits, from its digits.
digits_sum :
    (num d₇ d₆ d₅ d₄ d₃ d₂ d₁ d₀ : ℕ)
    → num < 2 ^ 32
    → d₇ ≡ num / 16 ^ 7 % 16
    → d₆ ≡ num / 16 ^ 6 % 16
    → d₅ ≡ num / 16 ^ 5 % 16
    → d₄ ≡ num / 16 ^ 4 % 16
    → d₃ ≡ num / 16 ^ 3 % 16
    → d₂ ≡ num / 16 ^ 2 % 16
    → d₁ ≡ num / 16 ^ 1 % 16
    → d₀ ≡ num / 16 ^ 0 % 16
    → ((((((((0 * 16 + d₇) * 16 + d₆) * 16 + d₅) * 16 + d₄) * 16 + d₃) * 16 + d₂) * 16 + d₁) * 16
        + d₀)
      ≡ num
digits_sum num d₇ d₆ d₅ d₄ d₃ d₂ d₁ d₀ lt e₇ e₆ e₅ e₄ e₃ e₂ e₁ e₀ = omega arith

-- The eight digits of `print_hex` read from left to right are the number.
pub print_hex-hex_value : (num : ℕ) → num < 2 ^ 32 → hex_value 0 (print_hex num) ≡ num
unfolding print_hex hex_from hex_value
print_hex-hex_value num lt =
    let digit = λ (i : ℕ). digit_value-hex_digit (num / 16 ^ i % 16) (omega arith) in
    digits_sum num _ _ _ _ _ _ _ _ lt (digit 7) (digit 6) (digit 5) (digit 4) (digit 3) (digit 2)
      (digit 1) (digit 0)
