-- ===== src/Pelikan/Cstring.antt =====
-- pelikanOS/src/string.c. The memory that a pointer leads to is the list of its bytes; `dest` and
-- `src` of memcpy do not overlap.
pub mod Laws
mod Tests
use systems_programming_proj.Prelude.{
  ℕ, zero, suc, ◌+◌, Bool, ◌&&◌, Option, none, some, List, [], ◌∷◌, length, get_or, set, ltb, ◌==◌,
  if◌then◌else◌,
}
use systems_programming_proj.Prelude.Int.{ℤ, pos, ◌-ℤ◌}

-- The loops from an index on, over the bytes that remain; `none` for a write past the end.
unfoldable pub memset_from : (remaining i val : ℕ) → List ℕ → Option (List ℕ)
memset_from zero i val buf = some buf
memset_from (suc remaining) i val buf =
    let rest = memset_from remaining (suc i) val (set buf i val) in
    if ltb i (length buf) then rest else none

unfoldable pub memset : (buf : List ℕ) (val size : ℕ) → Option (List ℕ)
memset buf val size = memset_from size 0 val buf

-- `none` for a read past the source or a write past the destination.
unfoldable pub memcpy_from : (remaining i : ℕ) → (dest src : List ℕ) → Option (List ℕ)
memcpy_from zero i dest src = some dest
memcpy_from (suc remaining) i dest src =
    let rest = memcpy_from remaining (suc i) (set dest i (get_or src i 0)) src in
    if ltb i (length src) && ltb i (length dest) then rest else none

unfoldable pub memcpy : (dest src : List ℕ) (size : ℕ) → Option (List ℕ)
memcpy dest src size = memcpy_from size 0 dest src

-- On strings without their NUL; where one ends its byte is 0.
unfoldable pub strcmp : List ℕ → List ℕ → ℤ
strcmp [] [] = pos 0
strcmp [] (y ∷ ys) = pos 0 -ℤ pos y
strcmp (x ∷ xs) [] = pos x -ℤ pos 0
strcmp (x ∷ xs) (y ∷ ys) = let rest = strcmp xs ys in if x == y then rest else pos x -ℤ pos y
