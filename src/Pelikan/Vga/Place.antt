-- ===== src/Pelikan/Vga/Place.antt =====
-- `print_at` of pelikanOS/src/vga.c.
use systems_programming_proj.Prelude.{
  ℕ, zero, suc, ◌+◌, ◌*◌, ◌<◌, ◌≤◌, false, List, [], ◌∷◌, length, get_or, set, length-set,
  get_or-set_self, get_or-set_ne, ◌≡◌, refl, ap, ◌∙◌, ◌≢◌, ◌⊎◌, inl, inr, ltb, leb, lt→ltb,
  Bool-cases, arith,
}
use systems_programming_proj.Pelikan.Vga.{Vga, rows, cols, cell_of, write_from, print_at}

length-write_from :
    (row col : ℕ) (str cells : List ℕ) → length (write_from row col str cells) ≡ length cells
unfolding write_from
length-write_from row col [] cells = refl
length-write_from row col (s ∷ rest) cells = elim (Bool-cases (ltb col cols)) [
  | inl e ↦ rw e (
      length-write_from row (suc col) rest (set cells (row * 80 + col) (cell_of s))
      ∙ length-set cells (row * 80 + col) (cell_of s))
  | inr e ↦ rw e refl
]

-- A place before the text, or behind the row, is not written.
write_from_elsewhere :
    (row col : ℕ) (str cells : List ℕ) (i : ℕ)
    → (i < row * 80 + col) ⊎ (row * 80 + 80 ≤ i)
    → get_or (write_from row col str cells) i 0 ≡ get_or cells i 0
unfolding write_from
write_from_elsewhere row col [] cells i out = refl
write_from_elsewhere row col (s ∷ rest) cells i out = elim (Bool-cases (ltb col cols)) [
  | inl e ↦
      let inside : col < 80 = ground (arith, e) in
      let further : (i < row * 80 + suc col) ⊎ (row * 80 + 80 ≤ i) = elim out [
        | inl a ↦ inl (omega (arith, a))
        | inr b ↦ inr b
      ] in
      let ne : row * 80 + col ≢ i =
        λ f. elim out [ inl a ↦ omega (arith, a, f) | inr b ↦ omega (arith, b, f, inside) ] in
      rw e (
        write_from_elsewhere row (suc col) rest (set cells (row * 80 + col) (cell_of s)) i further
        ∙ get_or-set_ne cells (row * 80 + col) i (cell_of s) 0 ne)
  | inr e ↦ rw e refl
]

write_from_there :
    (row col : ℕ) (str cells : List ℕ) (j : ℕ)
    → row * 80 + 80 ≤ length cells
    → j < length str
    → col + j < 80
    → get_or (write_from row col str cells) (row * 80 + (col + j)) 0 ≡ cell_of (get_or str j 0)
unfolding write_from
write_from_there row col [] cells j fits short inside = absurd (omega arith)
write_from_there row col (s ∷ rest) cells zero fits short inside =
    let place : row * 80 + (col + 0) ≡ row * 80 + col = omega arith in
    let later = set cells (row * 80 + col) (cell_of s) in
    rw (lt→ltb col cols (omega (arith, inside))) (
      ap (λ i. get_or (write_from row (suc col) rest later) i 0) place
      ∙ (write_from_elsewhere row (suc col) rest later (row * 80 + col) (inl (omega arith))
          ∙ get_or-set_self cells (row * 80 + col) (cell_of s) 0 (omega (arith, fits, inside))))
write_from_there row col (s ∷ rest) cells (suc j) fits short inside =
    let place : row * 80 + (col + suc j) ≡ row * 80 + (suc col + j) = omega arith in
    let later = set cells (row * 80 + col) (cell_of s) in
    rw (lt→ltb col cols (omega (arith, inside))) (
      ap (λ i. get_or (write_from row (suc col) rest later) i 0) place
      ∙ write_from_there row (suc col) rest later j
          (omega (arith, fits, length-set cells (row * 80 + col) (cell_of s)))
          (omega (arith, short)) (omega (arith, inside)))

-- The text stands in the row from the column on, cut at the end of the row.
pub record Placed (row col : ℕ) (str before after : List ℕ) : Type 0 where
  pub sized : length after ≡ length before
  pub there :
      (j : ℕ)
      → j < length str
      → col + j < 80
      → get_or after (row * 80 + (col + j)) 0 ≡ cell_of (get_or str j 0)
  pub elsewhere :
      (i : ℕ) → (i < row * 80 + col) ⊎ (row * 80 + 80 ≤ i) → get_or after i 0 ≡ get_or before i 0

-- `print_at` in a row of the screen, which has 2000 cells: the text appears from the given place on,
-- cut at the end of the row, the places before it and the other rows are as they were, and the
-- cursor does not move.
pub print_at-Placed :
    (row col : ℕ) (str : List ℕ) (vga : Vga)
    → row < 25
    → length vga.cells ≡ 2000
    → Placed row col str vga.cells (print_at row col str vga).cells
      × (((print_at row col str vga).row ≡ vga.row) × ((print_at row col str vga).col ≡ vga.col))
unfolding print_at
print_at-Placed row col str vga in_row sized =
    let on : leb rows row ≡ false = ground (arith, in_row) in
    let placed : Placed row col str vga.cells (write_from row col str vga.cells) = record {
      sized = length-write_from row col str vga.cells;
      there = λ j short inside.
          write_from_there row col str vga.cells j (omega (arith, in_row, sized)) short inside;
      elsewhere = λ i out. write_from_elsewhere row col str vga.cells i out;
    } in
    simp (on) (placed, (refl, refl))
