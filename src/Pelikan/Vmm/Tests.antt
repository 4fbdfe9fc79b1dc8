-- ===== src/Pelikan/Vmm/Tests.antt =====
-- The page tables of pelikanOS/src/vmm.c at a concrete state.
use systems_programming_proj.Prelude.{
  ℕ, ◌+◌, ◌%◌, true, some, none, List, ◌≡◌, refl, replicate, arith,
}
use systems_programming_proj.Pelikan.Pmm.{
  is_used, has_bit, clear_bit, set_bit, mark, unmark, bitmap_size, alloc_from, pmm_alloc_frame,
}
use systems_programming_proj.Pelikan.Pmm.Bits.{IsBitmap, full-IsBitmap, unmark-IsBitmap}
use systems_programming_proj.Pelikan.Vmm.{
  Words, Paging, vmm_init, vmm_map_page, vmm_unmap_page, is_present, dir_entry, init_table,
  init_directory, put_word,
}
use systems_programming_proj.Pelikan.Vmm.Init.{Identity, vmm_init-Identity}
use systems_programming_proj.Pelikan.Vmm.Map.{
  Remapped, vmm_map_page-Remapped, vmm_unmap_page-Remapped,
}

-- The frames 256, 257 and 258 are free.
abbrev three_free : List ℕ
three_free = unmark 258 (unmark 257 (unmark 256 (replicate bitmap_size 0xff)))

three_free-IsBitmap : IsBitmap three_free
three_free-IsBitmap =
    unmark-IsBitmap _
      (unmark-IsBitmap _ (unmark-IsBitmap _ full-IsBitmap 256 (omega arith)) 257 (omega arith)) 258
      (omega arith)

abbrev empty : Words
empty q = 0

frame_0 : is_used 0 three_free ≡ true
unfolding is_used has_bit unmark clear_bit
frame_0 = refl

gives_first : (pmm_alloc_frame three_free).0 ≡ 1048576
unfolding pmm_alloc_frame alloc_from is_used has_bit unmark clear_bit
gives_first = refl

gives_second : (pmm_alloc_frame (pmm_alloc_frame three_free).1).0 ≡ 1052672
unfolding pmm_alloc_frame alloc_from is_used has_bit unmark clear_bit mark set_bit
gives_second = refl

abbrev booted : Paging
booted = vmm_init empty three_free

booted-Identity : Identity booted
booted-Identity =
    vmm_init-Identity empty three_free three_free-IsBitmap frame_0
      (λ e. omega (arith, gives_first, e)) (λ e. omega (arith, gives_second, e))

vmm_init-Identity_example : Identity (vmm_init empty three_free)
vmm_init-Identity_example =
    vmm_init-Identity empty three_free three_free-IsBitmap frame_0
      (λ e. omega (arith, gives_first, e)) (λ e. omega (arith, gives_second, e))

gives_third : (pmm_alloc_frame booted.frames).0 ≡ 1056768
unfolding pmm_alloc_frame alloc_from is_used has_bit unmark clear_bit mark set_bit vmm_init
    init_table init_directory
gives_third = refl

-- An address above 4 MB, for which a table is made.
vmm_map_page-Remapped_example :
    Remapped 0x500123
      (some (0x200000 + 0x500123 % 4096))
      booted
      (vmm_map_page 0x500123 0x200000 booted)
vmm_map_page-Remapped_example =
    vmm_map_page-Remapped 0x500123 0x200000 booted (omega arith) (omega arith)
      booted-Identity.paging (λ e. omega (arith, gives_third, e))

first_table : is_present (dir_entry booted.page_directory 0x200000 booted.words) ≡ true
unfolding pmm_alloc_frame alloc_from is_used has_bit unmark clear_bit mark set_bit vmm_init
    init_table init_directory put_word
first_table = refl

vmm_unmap_page-Remapped_example : Remapped 0x200000 none booted (vmm_unmap_page 0x200000 booted)
vmm_unmap_page-Remapped_example =
    vmm_unmap_page-Remapped 0x200000 booted (omega arith) booted-Identity.paging first_table
