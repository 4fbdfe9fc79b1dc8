-- ===== src/Pelikan/Reap/Tests.antt =====
-- The clean-up of `reaper_thread` in pelikanOS/src/scheduler.c at a concrete state.
use mathlib.Core.Path.{subst}
use systems_programming_proj.Prelude.{
  ℕ, ◌+◌, ◌*◌, ◌<◌, true, false, some, List, [], ◌∷◌, ◌==◌, if◌then◌else◌, ◌≡◌, refl, sym, ap, ◌∙◌,
  replicate, arith,
}
use systems_programming_proj.Pelikan.Tasks.{Task, dead}
use systems_programming_proj.Pelikan.Ring.Paths.{IsRing}
use systems_programming_proj.Pelikan.Pmm.{
  is_used, has_bit, clear_bit, set_bit, mark, unmark, bitmap_size, alloc_from, pmm_alloc_frame,
}
use systems_programming_proj.Pelikan.Pmm.Bits.{
  IsBitmap, full-IsBitmap, mark-IsBitmap, unmark-IsBitmap, unmark-mark,
}
use systems_programming_proj.Pelikan.Vmm.{
  Paging, vmm_init, is_present, dir_entry, init_table, init_directory, put_word,
}
use systems_programming_proj.Pelikan.Vmm.Tables.{IsPaging}
use systems_programming_proj.Pelikan.Vmm.Init.{Identity, vmm_init-Identity}
use systems_programming_proj.Pelikan.Kheap.{header_size, magic_alloc}
use systems_programming_proj.Pelikan.Kheap.Cells.{Cell, cell}
use systems_programming_proj.Pelikan.Kheap.Alloc.{HeapInv}
use systems_programming_proj.Pelikan.Create.{Os}
use systems_programming_proj.Pelikan.Reap.{clean_up}
use systems_programming_proj.Pelikan.Reap.GivenBack.{
  GivenBack, paging_of, without_stack, clean_up-GivenBack,
}

-- The frames 256, 257, 768 and 769 are free; the page tables take the first two.
abbrev some_free : List ℕ
some_free = unmark 769 (unmark 768 (unmark 257 (unmark 256 (replicate bitmap_size 0xff))))

some_free-IsBitmap : IsBitmap some_free
some_free-IsBitmap =
    unmark-IsBitmap _
      (unmark-IsBitmap _
        (unmark-IsBitmap _ (unmark-IsBitmap _ full-IsBitmap 256 (omega arith)) 257 (omega arith))
        768 (omega arith))
      769 (omega arith)

frame_0 : is_used 0 some_free ≡ true
unfolding is_used has_bit unmark clear_bit
frame_0 = refl

gives_first : (pmm_alloc_frame some_free).0 ≡ 1048576
unfolding pmm_alloc_frame alloc_from is_used has_bit unmark clear_bit
gives_first = refl

gives_second : (pmm_alloc_frame (pmm_alloc_frame some_free).1).0 ≡ 1052672
unfolding pmm_alloc_frame alloc_from is_used has_bit unmark clear_bit mark set_bit
gives_second = refl

abbrev paged : Paging
paged = vmm_init (λ q. 0) some_free

paged-Identity : Identity paged
paged-Identity =
    vmm_init-Identity (λ q. 0) some_free some_free-IsBitmap frame_0
      (λ e. omega (arith, gives_first, e)) (λ e. omega (arith, gives_second, e))

-- The corpse's block fills frame 301, its stack is the frames 768 and 769.
abbrev block : Cell
block = cell 1232896 4076 true

-- Two tasks: the corpse and the reaper.
abbrev task : (neighbour : ℕ) → Task
task neighbour = record {
  esp = 0;
  eip = 0;
  page_directory = 0;
  state = dead;
  stack_base = 3149824;
  id = 0;
  next = neighbour;
  prev = neighbour;
  ready_next = 0;
  mutex_wait_next = 0;
  dead_next = 0;
}

abbrev os : Os
os = record {
  kernel = record {
    tasks = λ p. if p == 1232916 then task 500 else task 1232916;
    queue = record { head = 0; tail = 0 };
    dead_q = record { head = 0; tail = 0 };
    current_task = 0;
    reaper_task = 500;
  };
  last_inserted = 500;
  num_of_tasks = 2;
  heap = record {
    head = 1232896;
    blocks = λ p. record { size = 4076; free = 0; magic = magic_alloc; next = 0; prev = 0 };
    frames = mark 768 (mark 769 paged.frames);
  };
  page_directory = paged.page_directory;
  words = paged.words;
}

os-IsRing : IsRing os.kernel.tasks 500 (1232916 ∷ 500 ∷ [])
os-IsRing = record {
  path = (refl, (refl, (refl, (refl, tt))));
  last_end = refl;
  distinct = ((λ e. omega (arith, e), tt), (tt, tt));
  nonnull = λ e. omega (arith, e);
}

bits : IsBitmap os.heap.frames
bits =
    mark-IsBitmap _ (mark-IsBitmap _ paged-Identity.paging.bitmap 769 (omega arith)) 768
      (omega arith)

free_769 : is_used 769 paged.frames ≡ false
unfolding is_used has_bit unmark clear_bit mark set_bit vmm_init init_table init_directory
    pmm_alloc_frame alloc_from
free_769 = refl

free_768 : is_used 768 (mark 769 paged.frames) ≡ false
unfolding is_used has_bit unmark clear_bit mark set_bit vmm_init init_table init_directory
    pmm_alloc_frame alloc_from
free_768 = refl

-- Without the stack, the frames are as they were before it was taken.
stack_freed : (without_stack 3149824 os.heap).frames ≡ paged.frames
stack_freed =
    ap (unmark 769) (
      unmark-mark (mark 769 paged.frames)
        (mark-IsBitmap _ paged-Identity.paging.bitmap 769 (omega arith)) 768 (omega arith) free_768)
    ∙ unmark-mark paged.frames paged-Identity.paging.bitmap 769 (omega arith) free_769

rest-IsPaging : IsPaging (record (paging_of os) { frames = (without_stack 3149824 os.heap).frames })
rest-IsPaging =
    subst (λ f. IsPaging (record (paging_of os) { frames = f })) (sym stack_freed)
      paged-Identity.paging

frame_unique : (g : ℕ) → 1232896 < g * 4096 + 4096 → g * 4096 < 1236992 → g ≡ 301
frame_unique g lo hi = omega arith

frame_301 : is_used 301 (without_stack 3149824 os.heap).frames ≡ true
unfolding is_used has_bit unmark clear_bit mark set_bit vmm_init init_table init_directory
    pmm_alloc_frame alloc_from
frame_301 = refl

os-HeapInv : HeapInv (without_stack 3149824 os.heap) (block ∷ [])
unfolding is_used has_bit unmark clear_bit mark set_bit vmm_init init_table init_directory
    pmm_alloc_frame alloc_from
os-HeapInv = record {
  chain =
      (refl, (λ e. omega (arith, e), (record { size = refl; free = refl; magic = refl }, refl)));
  apart = (tt, tt);
  low = (omega arith, tt);
  backed = (
    λ g lo hi.
        ap (λ i. is_used i (without_stack 3149824 os.heap).frames)
          (frame_unique g (omega (arith, lo)) (omega (arith, hi)))
        ∙ frame_301,
    tt,
  );
  bitmap = unmark-IsBitmap _ (unmark-IsBitmap _ bits 768 (omega arith)) 769 (omega arith);
  first = refl;
}

table : is_present (dir_entry os.page_directory 3145728 os.words) ≡ true
unfolding pmm_alloc_frame alloc_from is_used has_bit unmark clear_bit mark set_bit vmm_init
    init_table init_directory put_word
table = refl

clean_up-GivenBack_example :
    (os' : Os) × ((clean_up (1232896 + header_size) os ≡ some os')
      × GivenBack 3149824 (500 ∷ []) [] block [] os os')
clean_up-GivenBack_example =
    clean_up-GivenBack 3149824 [] (500 ∷ []) [] block [] os refl (omega arith) (omega arith)
      (omega arith) os-IsRing (λ e. omega (arith, e), (λ e. omega (arith, e), tt)) bits
      rest-IsPaging table os-HeapInv refl
