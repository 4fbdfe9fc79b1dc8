-- ===== src/Pelikan/Itoa.antt =====
-- pelikanOS/src/itoa.c: the decimal digits of a number. The buffer is the list of the bytes before
-- the NUL.
pub mod Value
pub mod Turn
mod Tests
use systems_programming_proj.Prelude.{
  ℕ, zero, suc, ◌+◌, ◌-◌, ◌/◌, ◌%◌, List, [], ◌∷◌, length, get_or, set, ltb, ◌==◌, if◌then◌else◌,
}

-- The first loop, which writes the lowest digit first.
unfoldable pub digits_from : ℕ → ℕ → List ℕ
digits_from zero num = []
digits_from (suc fuel) num =
    let rest = digits_from fuel (num / 10) in
    (b'0' + num % 10) ∷ (if num / 10 == 0 then [] else rest)

unfoldable pub swap : (left right : ℕ) → List ℕ → List ℕ
swap left right buf = set (set buf left (get_or buf right 0)) right (get_or buf left 0)

-- The second loop, which turns the buffer round.
unfoldable pub swap_loop : ℕ → (left right : ℕ) → List ℕ → List ℕ
swap_loop zero left right buf = buf
swap_loop (suc fuel) left right buf =
    let rest = swap_loop fuel (suc left) (right - 1) (swap left right buf) in
    if ltb left right then rest else buf

-- A number of 32 bits has at most 10 digits.
unfoldable pub itoa : ℕ → List ℕ
itoa num = let buf = digits_from 10 num in swap_loop (length buf) 0 (length buf - 1) buf
