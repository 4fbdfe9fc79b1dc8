-- ===== src/Pelikan/Vga/Tests.antt =====
-- The console of pelikanOS/src/vga.c on an empty screen.
use systems_programming_proj.Prelude.{ℕ, [], ◌∷◌, ◌≡◌, replicate, length-replicate, arith}
use systems_programming_proj.Pelikan.Vga.{Vga, blank, make_space, print_at}
use systems_programming_proj.Pelikan.Vga.Place.{Placed, print_at-Placed}
use systems_programming_proj.Pelikan.Vga.Scroll.{MovedUp, make_space-MovedUp}
use systems_programming_proj.Pelikan.Vga.Cursor.{
  OnScreen, text, backspace, perform, perform-OnScreen,
}

-- The cursor at the last place of the screen.
abbrev corner : Vga
corner = record { row = 24; col = 79; cells = replicate 2000 blank }

corner-OnScreen : OnScreen corner
corner-OnScreen = record {
  sized = length-replicate {A = ℕ} 2000 blank;
  row_inside = omega arith;
  col_inside = omega arith;
}

make_space-MovedUp_example :
    MovedUp corner.cells (make_space corner).cells
    × (((make_space corner).row ≡ 24) × ((make_space corner).col ≡ 0))
make_space-MovedUp_example = make_space-MovedUp corner corner-OnScreen.sized

perform-OnScreen_example :
    OnScreen (perform (text (b'o' ∷ b'k' ∷ 10 ∷ []) ∷ backspace ∷ backspace ∷ []) corner)
perform-OnScreen_example =
    perform-OnScreen (text (b'o' ∷ b'k' ∷ 10 ∷ []) ∷ backspace ∷ backspace ∷ []) corner
      corner-OnScreen

print_at-Placed_example :
    Placed 3 77
      (b'l' ∷ b'o' ∷ b'n' ∷ b'g' ∷ [])
      corner.cells
      (print_at 3 77 (b'l' ∷ b'o' ∷ b'n' ∷ b'g' ∷ []) corner).cells
    × (((print_at 3 77 (b'l' ∷ b'o' ∷ b'n' ∷ b'g' ∷ []) corner).row ≡ corner.row)
        × ((print_at 3 77 (b'l' ∷ b'o' ∷ b'n' ∷ b'g' ∷ []) corner).col ≡ corner.col))
print_at-Placed_example =
    print_at-Placed 3 77 (b'l' ∷ b'o' ∷ b'n' ∷ b'g' ∷ []) corner (omega arith) corner-OnScreen.sized
