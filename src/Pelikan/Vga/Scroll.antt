-- ===== src/Pelikan/Vga/Scroll.antt =====
-- The scrolling of pelikanOS/src/vga.c.
use systems_programming_proj.Prelude.{
  ℕ, zero, suc, ◌+◌, ◌*◌, ◌<◌, ◌≤◌, List, length, get_or, set, length-set, get_or-set_self,
  get_or-set_ne, ◌≡◌, refl, ap, ◌∙◌, ◌≢◌, inl, inr, ◌==◌, ==_iff, Bool-cases, arith,
}
use mathlib.Core.Path.{subst}
use systems_programming_proj.Pelikan.Vga.{
  Vga, rows, cols, blank, shift_cell, shift_row, shift_rows, make_space,
}

abbrev screen : ℕ
screen = 2000

-- The cells up to a place hold what stood a row below, the others what they held.
record Shifted (before : List ℕ) (i : ℕ) (cells : List ℕ) : Type 0 where
  sized : length cells ≡ screen
  moved : (j : ℕ) → j < i → j < 1920 → get_or cells j 0 ≡ get_or before (j + 80) 0
  cleared : (j : ℕ) → j < i → 1920 ≤ j → get_or cells j 0 ≡ blank
  kept : (j : ℕ) → i ≤ j → get_or cells j 0 ≡ get_or before j 0

-- One cell more.
write-Shifted :
    (before cells : List ℕ) (i v : ℕ)
    → i < screen
    → (i < 1920 → v ≡ get_or before (i + 80) 0)
    → (1920 ≤ i → v ≡ blank)
    → Shifted before i cells
    → Shifted before (suc i) (set cells i v)
write-Shifted before cells i v inside upper lower h = record {
  sized = length-set cells i v ∙ h.sized;
  moved = λ j lt up. elim (Bool-cases (i == j)) [
    | inl e ↦
        let eq : i ≡ j = (==_iff i j).0 e in
        rw⁻¹ eq (get_or-set_self cells i v 0 (omega (arith, h.sized)) ∙ upper (omega (arith, eq)))
    | inr e ↦
        let ne : i ≢ j = ground (arith, e) in
        get_or-set_ne cells i j v 0 ne ∙ h.moved j (omega (arith, ne)) up
  ];
  cleared = λ j lt low. elim (Bool-cases (i == j)) [
    | inl e ↦
        let eq : i ≡ j = (==_iff i j).0 e in
        rw⁻¹ eq (get_or-set_self cells i v 0 (omega (arith, h.sized)) ∙ lower (omega (arith, eq)))
    | inr e ↦
        let ne : i ≢ j = ground (arith, e) in
        get_or-set_ne cells i j v 0 ne ∙ h.cleared j (omega (arith, ne)) low
  ];
  kept = λ j le. get_or-set_ne cells i j v 0 (λ f. omega (arith, f)) ∙ h.kept j (omega arith);
}

shift_cell-Shifted :
    (before cells : List ℕ) (row col : ℕ)
    → row < rows
    → col < cols
    → Shifted before (row * 80 + col) cells
    → Shifted before (suc (row * 80 + col)) (shift_cell row col cells)
unfolding shift_cell
shift_cell-Shifted before cells row col in_row in_col h = elim (Bool-cases (row == 24)) [
  | inl e ↦
      let last : row ≡ 24 = (==_iff row 24).0 e in
      rw e (
        write-Shifted before cells (row * 80 + col) blank (omega arith)
          (λ up. absurd (omega (arith, last, up))) (λ low. refl) h)
  | inr e ↦
      let higher : row ≢ 24 = ground (arith, e) in
      let below : (row + 1) * 80 + col ≡ (row * 80 + col) + 80 = omega arith in
      rw e (
        write-Shifted before cells (row * 80 + col) (get_or cells ((row + 1) * 80 + col) 0)
          (omega arith)
          (λ up. h.kept ((row + 1) * 80 + col) (omega arith) ∙ ap (λ i. get_or before i 0) below)
          (λ low. absurd (omega (arith, higher, low))) h)
]

shift_row-Shifted :
    (before : List ℕ) (remaining row col : ℕ) (cells : List ℕ)
    → row < rows
    → remaining + col ≡ cols
    → Shifted before (row * 80 + col) cells
    → Shifted before (row * 80 + 80) (shift_row remaining row col cells)
unfolding shift_row
shift_row-Shifted before zero row col cells in_row total h =
    let e : col ≡ 80 = omega (arith, total) in subst (λ i. Shifted before (row * 80 + i) cells) e h
shift_row-Shifted before (suc remaining) row col cells in_row total h =
    let e : suc (row * 80 + col) ≡ row * 80 + suc col = omega arith in
    shift_row-Shifted before remaining row (suc col) (shift_cell row col cells) in_row (omega arith)
      (rw⁻¹ e (shift_cell-Shifted before cells row col in_row (omega arith) h))

shift_rows-Shifted :
    (before : List ℕ) (remaining row : ℕ) (cells : List ℕ)
    → remaining + row ≡ rows
    → Shifted before (row * 80) cells
    → Shifted before screen (shift_rows remaining row cells)
unfolding shift_rows
shift_rows-Shifted before zero row cells total h =
    let e : row * 80 ≡ screen = omega (arith, total) in rw⁻¹ e h
shift_rows-Shifted before (suc remaining) row cells total h =
    let start : row * 80 ≡ row * 80 + 0 = omega arith in
    let end : row * 80 + 80 ≡ suc row * 80 = omega arith in
    shift_rows-Shifted before remaining (suc row) (shift_row cols row 0 cells) (omega arith)
      (rw⁻¹ end (shift_row-Shifted before cols row 0 cells (omega arith) refl (rw⁻¹ start h)))

-- What the screen shows after it has moved up by a row.
pub record MovedUp (before after : List ℕ) : Type 0 where
  pub sized : length after ≡ 2000
  pub moved :
      (row col : ℕ)
      → row < 24
      → col < 80
      → get_or after (row * 80 + col) 0 ≡ get_or before ((row + 1) * 80 + col) 0
  pub cleared : (col : ℕ) → col < 80 → get_or after (24 * 80 + col) 0 ≡ blank

-- `makeSpace`, on a screen of 2000 cells: each row but the last shows what the next one showed, the
-- last row is blank, and the cursor stands at its start.
pub make_space-MovedUp :
    (vga : Vga)
    → length vga.cells ≡ 2000
    → MovedUp vga.cells (make_space vga).cells
      × (((make_space vga).row ≡ 24) × ((make_space vga).col ≡ 0))
unfolding make_space
make_space-MovedUp vga sized =
    let start : Shifted vga.cells 0 vga.cells = record {
      sized = sized;
      moved = λ j lt. absurd (omega arith);
      cleared = λ j lt. absurd (omega arith);
      kept = λ j le. refl;
    } in
    let h = shift_rows-Shifted vga.cells rows 0 vga.cells refl start in
    (
      record {
        sized = h.sized;
        moved = λ row col in_row in_col.
            let below : (row * 80 + col) + 80 ≡ (row + 1) * 80 + col = omega arith in
            h.moved (row * 80 + col) (omega arith) (omega arith)
            ∙ ap (λ i. get_or vga.cells i 0) below;
        cleared = λ col in_col. h.cleared (24 * 80 + col) (omega arith) (omega arith);
      },
      (refl, refl),
    )
