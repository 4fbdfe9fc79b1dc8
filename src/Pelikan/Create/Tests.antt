-- ===== src/Pelikan/Create/Tests.antt =====
-- `create_task` of pelikanOS/src/scheduler.c at a concrete state.
use systems_programming_proj.Prelude.{ℕ, some, List, [], ◌≡◌, refl, replicate, arith}
use systems_programming_proj.Pelikan.Pmm.{
  is_used, has_bit, clear_bit, set_bit, mark, unmark, bitmap_size, alloc_from, pmm_alloc_frame,
  window, pmm_alloc_contiguous,
}
use systems_programming_proj.Pelikan.Pmm.Bits.{IsBitmap, full-IsBitmap, unmark-IsBitmap}
use systems_programming_proj.Pelikan.Kheap.{
  kmalloc, start, request_space, use_frame, search, try_block, split_block, write,
}
use systems_programming_proj.Pelikan.Create.{Os, new_task, task_size, create_task}
use systems_programming_proj.Pelikan.Create.Created.{OsInv}
use systems_programming_proj.Pelikan.Ring.Insert.{empty_ring}
use systems_programming_proj.Pelikan.Create.Spawned.{Created, stack_frames, create_task-Created}

-- The frames 256, 257 and 258 are free.
abbrev three_free : List ℕ
three_free = unmark 258 (unmark 257 (unmark 256 (replicate bitmap_size 0xff)))

three_free-IsBitmap : IsBitmap three_free
three_free-IsBitmap =
    unmark-IsBitmap _
      (unmark-IsBitmap _ (unmark-IsBitmap _ full-IsBitmap 256 (omega arith)) 257 (omega arith)) 258
      (omega arith)

-- No task yet; the reaper is at address 1.
abbrev booted : Os
booted = record {
  kernel = record {
    tasks = λ p. new_task 0 0 0 0 0;
    queue = record { head = 0; tail = 0 };
    dead_q = record { head = 0; tail = 0 };
    current_task = 0;
    reaper_task = 1;
  };
  last_inserted = 0;
  num_of_tasks = 0;
  heap = record {
    head = 0;
    blocks = λ p. record { size = 0; free = 0; magic = 0; next = 0; prev = 0 };
    frames = three_free;
  };
  page_directory = 0;
  words = λ p. 0;
}

booted-OsInv : OsInv booted [] [] []
unfolding is_used has_bit unmark clear_bit
booted-OsInv = record {
  heap = record {
    chain = refl;
    apart = tt;
    low = tt;
    backed = tt;
    bitmap = three_free-IsBitmap;
    first = refl;
  };
  waiting = record {
    queue = record { holds = record { chain = refl; last = tt; distinct = tt }; states = tt };
    reaper = λ e. omega (arith, e);
  };
  all = empty_ring;
  ready_housed = tt;
  all_housed = tt;
}

first_frame_free : (pmm_alloc_frame three_free).0 ≡ 1048576
unfolding pmm_alloc_frame alloc_from is_used has_bit unmark clear_bit
first_frame_free = refl

stack_at : stack_frames (kmalloc 5 task_size booted.heap) ≡ 1052672
unfolding pmm_alloc_frame alloc_from is_used has_bit unmark clear_bit mark set_bit kmalloc start
    request_space use_frame search try_block split_block write window pmm_alloc_contiguous
stack_at = refl

create_task-Created_example :
    (t : ℕ) × ((os' : Os) × ((create_task 5 1114112 100 0 booted ≡ some (t, os'))
        × Created booted [] [] 1114112 100 t os'))
create_task-Created_example =
    create_task-Created 5 1114112 100 booted [] [] [] (omega arith) booted-OsInv
      (λ e. omega (arith, first_frame_free, e)) (λ e. omega (arith, stack_at, e))
