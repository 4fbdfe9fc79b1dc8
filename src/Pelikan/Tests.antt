-- ===== src/Pelikan/Tests.antt =====
-- The theorems on pelikanOS at concrete states.
use systems_programming_proj.Prelude.{
  ℕ, ◌∷◌, [], ◌≡◌, ◌≢◌, refl, arith, List, some, replicate, true, not, ◌||◌, ltb, ◌^◌,
}
use systems_programming_proj.Pelikan.Pmm.{
  MmapEntry, bitmap_size, is_used, has_bit, clear_bit, unmark, alloc_from, pmm_alloc_frame,
  pmm_free_frame, pmm_alloc_contiguous, pmm_init, no_frame,
}
use systems_programming_proj.Pelikan.Pmm.Bits.{IsBitmap, full-IsBitmap, unmark-IsBitmap}
use systems_programming_proj.Pelikan.Pmm.Alloc.{
  Allocates, pmm_alloc_frame-Allocates, pmm_free_frame-pmm_alloc_frame,
}
use systems_programming_proj.Pelikan.Pmm.Contiguous.{
  AllocatesRun, pmm_alloc_contiguous-AllocatesRun,
}
use systems_programming_proj.Pelikan.Pmm.Init.{
  first_byte, last_byte, meets, available, covered, pmm_init-Shows,
}
use systems_programming_proj.Pelikan.Pmm.Spans.{Shows}

-- Only frame 300 is free.
abbrev one_free : List ℕ
one_free = unmark 300 (replicate bitmap_size 0xff)

one_free-IsBitmap : IsBitmap one_free
one_free-IsBitmap = unmark-IsBitmap _ full-IsBitmap 300 (omega arith)

gives_300 : (pmm_alloc_frame one_free).0 ≡ 1228800
unfolding pmm_alloc_frame alloc_from is_used has_bit unmark clear_bit
gives_300 = refl

gives_a_frame : (pmm_alloc_frame one_free).0 ≢ no_frame
gives_a_frame e = omega (arith, gives_300, e)

pmm_alloc_frame-Allocates_example :
    Allocates one_free (pmm_alloc_frame one_free).0 (pmm_alloc_frame one_free).1
pmm_alloc_frame-Allocates_example = pmm_alloc_frame-Allocates one_free one_free-IsBitmap

pmm_free_frame-pmm_alloc_frame_example :
    pmm_free_frame (pmm_alloc_frame one_free).0 (pmm_alloc_frame one_free).1 ≡ some one_free
pmm_free_frame-pmm_alloc_frame_example =
    pmm_free_frame-pmm_alloc_frame one_free one_free-IsBitmap gives_a_frame

pmm_alloc_contiguous-AllocatesRun_example :
    AllocatesRun one_free 1 (pmm_alloc_contiguous 1 one_free).0 (pmm_alloc_contiguous 1 one_free).1
pmm_alloc_contiguous-AllocatesRun_example =
    pmm_alloc_contiguous-AllocatesRun one_free 1 one_free-IsBitmap (omega arith)

-- 128 MB, with the BIOS area reserved.
abbrev memory_map : List MmapEntry
memory_map =
    record { addr = 0; len = 654336; type = 1 }
    ∷ record { addr = 983040; len = 65536; type = 2 }
    ∷ record { addr = 1048576; len = 133038080; type = 1 }
    ∷ []

memory_map-covered : covered memory_map ≡ true
unfolding covered
memory_map-covered = refl

pmm_init-Shows_example :
    (m : List ℕ) × ((pmm_init 1048576 1077248 memory_map ≡ some m)
      × Shows m (λ g.
        meets 1048576 1077248 g
        || (ltb (first_byte g) (2 ^ 20) || not (available memory_map (last_byte g)))))
pmm_init-Shows_example = pmm_init-Shows 1048576 1077248 memory_map memory_map-covered (omega arith)
