-- ===== src/Pelikan/Ring/Tests.antt =====
-- The ring of pelikanOS/src/scheduler.c at concrete states.
use systems_programming_proj.Prelude.{
  ℕ, some, [], ◌∷◌, ◌≡◌, refl, ◌==◌, if◌then◌else◌, replicate, arith,
}
use systems_programming_proj.Pelikan.Tasks.{blocked, Task, Store}
use systems_programming_proj.Pelikan.Vga.{Vga}
use systems_programming_proj.Pelikan.Ring.{
  insert_task, remove_task_from_circular_list, scheduler_list_tasks,
}
use systems_programming_proj.Pelikan.Ring.Paths.{IsRing}
use systems_programming_proj.Pelikan.Ring.Insert.{Rings, ring, insert_task-Rings}
use systems_programming_proj.Pelikan.Ring.Remove.{remove_task_from_circular_list-Rings}
use systems_programming_proj.Pelikan.Ring.Listing.{list_all, scheduler_list_tasks-list_all}

abbrev task : (id next prev : ℕ) → Task
task id next prev = record {
  esp = 0;
  eip = 0;
  page_directory = 0;
  state = blocked;
  stack_base = 0;
  id = id;
  next = next;
  prev = prev;
  ready_next = 0;
  mutex_wait_next = 0;
  dead_next = 0;
}

-- Three tasks; the last one was put in last.
abbrev three : Store
three p =
    if p == 100
    then task 99 200 300
    else if p == 200
    then task 0 300 100
    else if p == 300
    then task 1 100 200
    else task 0 0 0

three-IsRing : IsRing three 300 (100 ∷ 200 ∷ 300 ∷ [])
three-IsRing = record {
  path = (refl, (refl, (refl, (refl, (refl, (refl, tt))))));
  last_end = refl;
  distinct = (
    (λ e. omega (arith, e), (λ e. omega (arith, e), tt)),
    ((λ e. omega (arith, e), tt), (tt, tt)),
  );
  nonnull = λ e. omega (arith, e);
}

insert_task-Rings_example :
    ((insert_task 400 300 three).0 ≡ 400)
    × Rings (insert_task 400 300 three).1 400 (100 ∷ 200 ∷ 300 ∷ 400 ∷ [])
insert_task-Rings_example =
    insert_task-Rings 400 300 three (100 ∷ 200 ∷ 300 ∷ []) (λ e. omega (arith, e))
      (λ e. omega (arith, e), (λ e. omega (arith, e), (λ e. omega (arith, e), tt)))
      (ring three-IsRing)

-- The last task goes, and `last_inserted` names the first one.
remove_task_from_circular_list-Rings_example :
    Rings
      (remove_task_from_circular_list 300 300 three).1
      (remove_task_from_circular_list 300 300 three).0
      (200 ∷ 100 ∷ [])
remove_task_from_circular_list-Rings_example =
    remove_task_from_circular_list-Rings three 300 300 (100 ∷ 200 ∷ []) [] three-IsRing
      (λ e. omega (arith, e), (λ e. omega (arith, e), (λ e. omega (arith, e), tt)))

abbrev screen : Vga
screen = record { row = 0; col = 0; cells = replicate 2000 32 }

scheduler_list_tasks-list_all_example :
    scheduler_list_tasks 3 300 200 three screen
    ≡ some (list_all three (200 ∷ 300 ∷ 100 ∷ []) screen)
scheduler_list_tasks-list_all_example =
    scheduler_list_tasks-list_all 3 300 200 (100 ∷ []) (300 ∷ []) three screen three-IsRing
      (omega arith)
