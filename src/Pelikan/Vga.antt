-- ===== src/Pelikan/Vga.antt =====
-- pelikanOS/src/vga.c: the text screen, 25 rows of 80 cells, and its cursor.
pub mod Scroll
pub mod Cursor
pub mod Place
mod Tests
use systems_programming_proj.Prelude.{
  ℕ, zero, suc, ◌+◌, ◌-◌, ◌*◌, Bool, true, false, ◌&&◌, List, [], ◌∷◌, get_or, set, ltb, leb, ◌==◌,
  if◌then◌else◌,
}
use Prim.Native.Nat.{bit_or}

-- The cells are those at `addr`; a write outside the list is outside the screen's memory.
pub record Vga : Type 0 where
  pub row : ℕ
  pub col : ℕ
  pub cells : List ℕ

abbrev pub rows : ℕ
rows = 25

abbrev pub cols : ℕ
cols = 80

abbrev pub blank : ℕ
blank = b' '

unfoldable pub shift_cell : (row col : ℕ) → List ℕ → List ℕ
shift_cell row col cells =
    if row == 24
    then set cells (row * 80 + col) blank
    else set cells (row * 80 + col) (get_or cells ((row + 1) * 80 + col) 0)

-- The inner loop from a column on, over the columns that remain.
unfoldable pub shift_row : (remaining row col : ℕ) → List ℕ → List ℕ
shift_row zero row col cells = cells
shift_row (suc remaining) row col cells =
    shift_row remaining row (suc col) (shift_cell row col cells)

unfoldable pub shift_rows : (remaining row : ℕ) → List ℕ → List ℕ
shift_rows zero row cells = cells
shift_rows (suc remaining) row cells = shift_rows remaining (suc row) (shift_row cols row 0 cells)

-- `makeSpace`
unfoldable pub make_space : Vga → Vga
make_space vga = record { row = 24; col = 0; cells = shift_rows rows 0 vga.cells }

-- `(0x0F << 8) | s` in 16 bits, where `s` is a signed character.
abbrev pub cell_of : ℕ → ℕ
cell_of s = if ltb s 128 then bit_or 0x0f00 s else bit_or 0xff00 s

unfoldable pub next_row : Vga → Vga
next_row vga =
    let down = record vga { col = 0; row = vga.row + 1 } in
    if leb rows down.row then make_space down else down

unfoldable pub put_char : ℕ → Vga → Vga
put_char s vga =
    let written = record vga {
      cells =
          if ltb vga.col cols
          then set vga.cells (vga.row * 80 + vga.col) (cell_of s)
          else vga.cells;
      col = vga.col + 1;
    } in
    if leb cols written.col then next_row written else written

-- `mapToVGA`
unfoldable pub map_to_vga : ℕ → Vga → Vga
map_to_vga s vga =
    if s == 10
    then (if vga.row == 24 then make_space vga else record vga { col = 0; row = vga.row + 1 })
    else (if ltb vga.row rows then put_char s vga else vga)

unfoldable pub print : List ℕ → Vga → Vga
print [] vga = vga
print (s ∷ rest) vga = print rest (map_to_vga s vga)

unfoldable pub erase : (row col : ℕ) → Vga → Vga
erase row col vga = record vga {
  row = row;
  col = col;
  cells = set vga.cells (row * 80 + col) blank;
}

-- `removeChar`
unfoldable pub remove_char : Vga → Vga
remove_char vga =
    if ltb 0 vga.row
    then (if vga.col == 0 then erase (vga.row - 1) 79 vga else erase vga.row (vga.col - 1) vga)
    else (if ltb 0 vga.col then erase vga.row (vga.col - 1) vga else vga)

-- The loop of `print_at`, which stops at the end of the text or of the row.
unfoldable pub write_from : (row col : ℕ) → List ℕ → List ℕ → List ℕ
write_from row col [] cells = cells
write_from row col (s ∷ rest) cells =
    let more = write_from row (suc col) rest (set cells (row * 80 + col) (cell_of s)) in
    if ltb col cols then more else cells

unfoldable pub print_at : (row col : ℕ) → List ℕ → Vga → Vga
print_at row col str vga =
    if leb rows row then vga else record vga { cells = write_from row col str vga.cells }
