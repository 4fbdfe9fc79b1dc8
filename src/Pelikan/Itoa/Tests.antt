-- ===== src/Pelikan/Itoa/Tests.antt =====
-- pelikanOS/src/itoa.c at one number.
use systems_programming_proj.Prelude.{[], ◌∷◌, ◌≡◌, refl}
use systems_programming_proj.Pelikan.Itoa.{digits_from, swap, swap_loop, itoa}

printed : itoa 4096 ≡ b'4' ∷ b'0' ∷ b'9' ∷ b'6' ∷ []
unfolding itoa digits_from swap_loop swap
printed = refl
