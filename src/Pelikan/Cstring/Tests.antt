-- ===== src/Pelikan/Cstring/Tests.antt =====
-- The routines of pelikanOS/src/string.c on short buffers.
use systems_programming_proj.Prelude.{
  ℕ, none, some, List, [], ◌∷◌, get_or, ◌≡◌, refl, arith, bytes_eq,
}
use systems_programming_proj.Prelude.Int.{pos, eq_ℤ}
use systems_programming_proj.Pelikan.Cstring.{memset, memcpy, memcpy_from, strcmp}
use systems_programming_proj.Pelikan.Cstring.Laws.{Fills, memset-memcpy-Copied, strcmp-bytes_eq}

abbrev dest : List ℕ
dest = 1 ∷ 2 ∷ 3 ∷ []

abbrev source : List ℕ
source = 7 ∷ 8 ∷ 9 ∷ []

copied : memcpy dest source 2 ≡ some (7 ∷ 8 ∷ 3 ∷ [])
unfolding memcpy memcpy_from
copied = refl

-- The source is read past its end.
past_source : memcpy dest (7 ∷ []) 2 ≡ none
unfolding memcpy memcpy_from
past_source = refl

memset-memcpy-Copied_example :
    Fills (λ j. 5) dest 2 (memset dest 5 2)
    × Fills (λ j. get_or source j 0) dest 2 (memcpy dest source 2)
memset-memcpy-Copied_example = memset-memcpy-Copied dest source 5 2 (omega arith) (omega arith)

strcmp-bytes_eq_example :
    eq_ℤ (strcmp (b'i' ∷ b'f' ∷ []) (b'i' ∷ [])) (pos 0) ≡ bytes_eq (b'i' ∷ b'f' ∷ []) (b'i' ∷ [])
strcmp-bytes_eq_example =
    strcmp-bytes_eq (b'i' ∷ b'f' ∷ []) (b'i' ∷ [])
      ((λ e. omega (arith, e)), ((λ e. omega (arith, e)), tt)) ((λ e. omega (arith, e)), tt)
