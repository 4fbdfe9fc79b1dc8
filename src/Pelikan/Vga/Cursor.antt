-- ===== src/Pelikan/Vga/Cursor.antt =====
-- The cursor of pelikanOS/src/vga.c stays on the screen.
use systems_programming_proj.Prelude.{
  ℕ, ◌+◌, ◌-◌, ◌*◌, ◌<◌, true, List, [], ◌∷◌, length, set, length-set, ◌≡◌, ◌∙◌, inl, inr, ltb, leb,
  ◌==◌, Bool-cases, arith,
}
use systems_programming_proj.Pelikan.Vga.{
  Vga, rows, cols, blank, cell_of, make_space, next_row, put_char, map_to_vga, print, erase,
  remove_char,
}
use systems_programming_proj.Pelikan.Vga.Scroll.{make_space-MovedUp}

pub record OnScreen (vga : Vga) : Type 0 where
  pub sized : length vga.cells ≡ 2000
  pub row_inside : vga.row < 25
  pub col_inside : vga.col < 80

make_space-OnScreen : (vga : Vga) → length vga.cells ≡ 2000 → OnScreen (make_space vga)
make_space-OnScreen vga sized =
    let (up, (last, start)) = make_space-MovedUp vga sized in
    record { sized = up.sized; row_inside = omega (arith, last); col_inside = omega (arith, start) }

next_row-OnScreen : (vga : Vga) → length vga.cells ≡ 2000 → vga.row < 25 → OnScreen (next_row vga)
unfolding next_row
next_row-OnScreen vga sized in_row = elim (Bool-cases (leb rows (vga.row + 1))) [
  | inl e ↦ simp (e) (make_space-OnScreen (record vga { col = 0; row = vga.row + 1 }) sized)
  | inr e ↦
      let down : OnScreen (record vga { col = 0; row = vga.row + 1 }) = record {
        sized = sized;
        row_inside = ground (arith, e);
        col_inside = omega arith;
      } in
      simp (e) down
]

put_char-OnScreen : (s : ℕ) (vga : Vga) → OnScreen vga → OnScreen (put_char s vga)
unfolding put_char
put_char-OnScreen s vga h =
    let written = record vga {
      cells = set vga.cells (vga.row * 80 + vga.col) (cell_of s);
      col = vga.col + 1;
    } in
    let sized : length written.cells ≡ 2000 =
      length-set vga.cells (vga.row * 80 + vga.col) (cell_of s) ∙ h.sized in
    let inside : ltb vga.col cols ≡ true = ground (arith, h.col_inside) in
    elim (Bool-cases (leb cols (vga.col + 1))) [
      | inl e ↦ simp (inside, e) (next_row-OnScreen written sized h.row_inside)
      | inr e ↦
          let on : OnScreen written = record {
            sized = sized;
            row_inside = h.row_inside;
            col_inside = ground (arith, e);
          } in
          simp (inside, e) on
    ]

map_to_vga-OnScreen : (s : ℕ) (vga : Vga) → OnScreen vga → OnScreen (map_to_vga s vga)
unfolding map_to_vga
map_to_vga-OnScreen s vga h = elim (Bool-cases (s == 10)) [
  | inl e ↦ elim (Bool-cases (vga.row == 24)) [
    | inl last ↦ simp (e, last) (make_space-OnScreen vga h.sized)
    | inr higher ↦
        let down : OnScreen (record vga { col = 0; row = vga.row + 1 }) = record {
          sized = h.sized;
          row_inside = ground (arith, higher, h.row_inside);
          col_inside = omega arith;
        } in
        simp (e, higher) down
  ]
  | inr e ↦
      let inside : ltb vga.row rows ≡ true = ground (arith, h.row_inside) in
      simp (e, inside) (put_char-OnScreen s vga h)
]

print-OnScreen : (text : List ℕ) (vga : Vga) → OnScreen vga → OnScreen (print text vga)
unfolding print
print-OnScreen [] vga h = h
print-OnScreen (s ∷ rest) vga h =
    print-OnScreen rest (map_to_vga s vga) (map_to_vga-OnScreen s vga h)

erase-OnScreen :
    (row col : ℕ) (vga : Vga) → row < 25 → col < 80 → OnScreen vga → OnScreen (erase row col vga)
unfolding erase
erase-OnScreen row col vga in_row in_col h = record {
  sized = length-set vga.cells (row * 80 + col) blank ∙ h.sized;
  row_inside = in_row;
  col_inside = in_col;
}

remove_char-OnScreen : (vga : Vga) → OnScreen vga → OnScreen (remove_char vga)
unfolding remove_char
remove_char-OnScreen vga h = elim (Bool-cases (ltb 0 vga.row)) [
  | inl e ↦ elim (Bool-cases (vga.col == 0)) [
    | inl start ↦
        simp (e, start)
          (erase-OnScreen (vga.row - 1) 79 vga (omega (arith, h.row_inside)) (omega arith) h)
    | inr later ↦
        simp (e, later)
          (erase-OnScreen vga.row (vga.col - 1) vga h.row_inside (omega (arith, h.col_inside)) h)
  ]
  | inr e ↦ elim (Bool-cases (ltb 0 vga.col)) [
    | inl later ↦
        simp (e, later)
          (erase-OnScreen vga.row (vga.col - 1) vga h.row_inside (omega (arith, h.col_inside)) h)
    | inr start ↦ simp (e, start) h
  ]
]

-- A use of the console.
pub data Action : Type 0 where
  text : List ℕ → Action
  backspace : Action

unfoldable pub perform : List Action → Vga → Vga
perform [] vga = vga
perform (text s ∷ actions) vga = perform actions (print s vga)
perform (backspace ∷ actions) vga = perform actions (remove_char vga)

-- Whatever is printed and removed, in any order, on a screen of 2000 cells with the cursor in its 25
-- rows and 80 columns, the cursor stays there and the screen keeps its 2000 cells.
pub perform-OnScreen :
    (actions : List Action) (vga : Vga) → OnScreen vga → OnScreen (perform actions vga)
unfolding perform
perform-OnScreen [] vga h = h
perform-OnScreen (text s ∷ actions) vga h =
    perform-OnScreen actions (print s vga) (print-OnScreen s vga h)
perform-OnScreen (backspace ∷ actions) vga h =
    perform-OnScreen actions (remove_char vga) (remove_char-OnScreen vga h)
