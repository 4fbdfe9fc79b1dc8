-- ===== src/Pelikan/Scheduler/Tests.antt =====
-- The theorems on the queues and the scheduler at a kernel with the reaper and one task.
use systems_programming_proj.Prelude.{[], ◌∷◌, ◌≡◌, refl, ◌≢◌, some, arith}
use systems_programming_proj.Pelikan.Tasks.{
  TaskState, blocked, ready, running, Task, Store, update, Ends, ready_link, add_task, remove_task,
  add_task_to_ready_queue, remove_task_from_ready_queue,
}
use systems_programming_proj.Pelikan.Tasks.Queue.{
  Holds, Removes, add_task-Holds, remove_task-Removes,
}
use systems_programming_proj.Pelikan.Scheduler.{
  Kernel, set_state, take_next, switch_to, make_ready, settle, take_lock, mutex_unlock, mutex_init,
}
use systems_programming_proj.Pelikan.Scheduler.States.{Inv, make_ready-Inv}
use systems_programming_proj.Pelikan.Scheduler.Steps.{
  scheduling, sys, Steps, dispatches, locks, unlocks, yields, stop, more, Safe, Steps-Safe,
}

abbrev zeroed : Task
zeroed = record {
  esp = 0;
  eip = 0;
  page_directory = 0;
  state = blocked;
  stack_base = 0;
  id = 0;
  next = 0;
  prev = 0;
  ready_next = 0;
  mutex_wait_next = 0;
  dead_next = 0;
}

abbrev memory : Store
memory p = zeroed

abbrev no_tasks : Ends
no_tasks = record { head = 0; tail = 0 }

no_tasks-Holds : Holds ready_link no_tasks memory []
no_tasks-Holds = record { chain = refl; last = tt; distinct = tt }

add_task-Holds_example :
    Holds ready_link
      (add_task_to_ready_queue 2 no_tasks memory).0
      (add_task_to_ready_queue 2 no_tasks memory).1
      (2 ∷ [])
add_task-Holds_example =
    add_task-Holds ready_link no_tasks memory [] 2 (λ e. omega arith) tt no_tasks-Holds

two-Holds :
    Holds ready_link
      (add_task_to_ready_queue 2 no_tasks memory).0
      (add_task_to_ready_queue 2 no_tasks memory).1
      (2 ∷ [])
two-Holds = add_task-Holds ready_link no_tasks memory [] 2 (λ e. omega arith) tt no_tasks-Holds

remove_task-Removes_example :
    Removes ready_link
      (add_task_to_ready_queue 2 no_tasks memory).0
      (add_task_to_ready_queue 2 no_tasks memory).1
      (2 ∷ [])
      (remove_task_from_ready_queue
        (add_task_to_ready_queue 2 no_tasks memory).0
        (add_task_to_ready_queue 2 no_tasks memory).1)
remove_task-Removes_example = remove_task-Removes ready_link _ _ (2 ∷ []) two-Holds

-- The reaper, at address 1, sleeps.
abbrev idle : Kernel
idle = record {
  tasks = memory;
  queue = no_tasks;
  dead_q = no_tasks;
  current_task = 0;
  reaper_task = 1;
}

idle-Inv : Inv idle no_tasks
idle-Inv = record {
  r = [];
  d = [];
  w = [];
  ready_q = record { holds = record { chain = refl; last = tt; distinct = tt }; states = tt };
  dead_q = record { holds = record { chain = refl; last = tt; distinct = tt }; states = tt };
  wait_q = record { holds = record { chain = refl; last = tt; distinct = tt }; states = tt };
  reaper_nonnull = λ e. omega arith;
  reaper_apart = tt;
}

abbrev boot : Kernel
boot = make_ready 2 idle

blocked_not_ready : blocked ≢ ready
blocked_not_ready e = ground arith

blocked_not_dead : blocked ≢ TaskState.dead
blocked_not_dead e = ground arith

boot-Safe : Safe (sys scheduling boot mutex_init)
unfolding idle-Inv
boot-Safe = record {
  inv =
      make_ready-Inv idle no_tasks idle-Inv 2 (λ e. omega arith) blocked_not_ready blocked_not_dead
        tt;
  runs = tt;
}

abbrev first : Kernel
first = record boot {
  queue = no_tasks;
  tasks = set_state running 2 (update 2 (ready_link.put 0) boot.tasks);
  current_task = 2;
}

first_taken : take_next boot ≡ some first
unfolding take_next switch_to make_ready add_task remove_task update
first_taken = refl

Steps-Safe_example : Safe (sys scheduling (settle first) (take_lock mutex_init first))
Steps-Safe_example =
    Steps-Safe boot-Safe (more (dispatches first_taken) (more (locks refl) (more yields stop)))

-- Task 3 is ready behind task 2, which takes the mutex, releases it, and is stopped by the timer.
abbrev both : Kernel
both = make_ready 3 boot

abbrev second : Kernel
second = record both {
  queue = record { head = 3; tail = 3 };
  tasks = set_state running 2 (update 2 (ready_link.put 0) both.tasks);
  current_task = 2;
}

second_taken : take_next both ≡ some second
unfolding take_next switch_to make_ready add_task remove_task update
second_taken = refl

abbrev two_turns : Steps (sys scheduling both mutex_init) (
    sys scheduling
      (settle (mutex_unlock (take_lock mutex_init second) second).1)
      (mutex_unlock (take_lock mutex_init second) second).0)
two_turns = more (dispatches second_taken) (more (locks refl) (more unlocks (more yields stop)))
