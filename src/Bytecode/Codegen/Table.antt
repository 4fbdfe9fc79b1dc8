-- ===== src/Bytecode/Codegen/Table.antt =====
-- The variable table of bytecode-vm/compiler.c: `var_names`, searched from the front.
use systems_programming_proj.Prelude.{
  ℕ, zero, suc, ◌<◌, ◌≡◌, ◌≢◌, sym, ◌∙◌, inl, inr, none, some, List, [], ◌∷◌, arith, Bool-cases,
  Option-cases, length, get_or, set, bytes_eq, bytes_eq_refl, bytes_eq→eq,
}
use systems_programming_proj.Bytecode.Ast.{Name}
use systems_programming_proj.Bytecode.Codegen.{find}

-- The entry found holds the name, inside the table.
pub get-find :
    (x : Name) (ys : List Name) (i : ℕ)
    → find x ys ≡ some i
    → (get_or ys i [] ≡ x) × (i < length ys)
unfolding find
get-find x [] i h = cc
get-find x (y ∷ ys) i h = elim (Bool-cases (bytes_eq y x)) [
  | inl e ↦ ground (arith, bytes_eq→eq y x)
  | inr e ↦ elim (Option-cases (find x ys)) [
    | inl none_left ↦ cc (e, none_left)
    | inr (j, found) ↦ ground (arith, get-find x ys j)
  ]
]

-- Two names with one entry are one name.
pub find_injective :
    (x y : Name) (ys : List Name) (i : ℕ) → find x ys ≡ some i → find y ys ≡ some i → x ≡ y
find_injective x y ys i p q = sym (get-find x ys i p).0 ∙ (get-find y ys i q).0

-- A new name is found at the entry it was written to, if no entry held it.
pub find-set_self :
    (x : Name) (ys : List Name) (k : ℕ)
    → find x ys ≡ none
    → k < length ys
    → find x (set ys k x) ≡ some k
unfolding find
find-set_self x [] k h lt = absurd (omega arith)
find-set_self x (y ∷ ys) zero h lt = rw bytes_eq_refl
find-set_self x (y ∷ ys) (suc k) h lt = ground (arith, find-set_self x ys k)

-- Writing it keeps every entry that was found before, unless it is overwritten.
pub find-set_ne :
    (x y : Name) (ys : List Name) (k i : ℕ)
    → find x ys ≡ none
    → get_or ys k [] ≢ y
    → find y ys ≡ some i
    → find y (set ys k x) ≡ some i
unfolding find
find-set_ne x y [] k i hx hk hy = hy
find-set_ne x y (z ∷ ys) zero i hx hk hy = ground (arith, bytes_eq→eq z y, bytes_eq→eq x y)
find-set_ne x y (z ∷ ys) (suc k) i hx hk hy = elim (Option-cases (find y ys)) [
  | inl none_left ↦ ground arith
  | inr (j, found) ↦ ground (arith, find-set_ne x y ys k j)
]
