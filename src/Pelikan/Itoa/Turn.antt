-- ===== src/Pelikan/Itoa/Turn.antt =====
-- The loop of pelikanOS/src/itoa.c that turns the buffer round, and the result.
use systems_programming_proj.Prelude.{ℕ, suc, ◌+◌, ◌<◌, ◌≤◌, List, length, get_or, ◌≡◌, ◌⊎◌}

-- The places outside the two marks are turned, those between are as they were.
record Turned (before : List ℕ) (left right : ℕ) (buf : List ℕ) : Type 0 where
  sized : length buf ≡ length before
  marks : suc (left + right) ≡ length before
  outer :
      (i j : ℕ)
      → suc (i + j) ≡ length before
      → (i < left) ⊎ (right < i)
      → get_or buf i 0 ≡ get_or before j 0
  inner : (i : ℕ) → left ≤ i → i ≤ right → get_or buf i 0 ≡ get_or before i 0
