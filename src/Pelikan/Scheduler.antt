-- ===== src/Pelikan/Scheduler.antt =====
-- The scheduling loop of pelikanOS/src/scheduler.c and the mutex of pelikanOS/src/mutex_lock.c. The
-- switch `swtch` is the border between the two phases of Scheduler/Steps. Interrupts are off in each
-- function here while it touches a queue.
pub mod States
pub mod Switches
pub mod Locks
pub mod Reaper
pub mod Waiting
pub mod Newcomer
pub mod Steps
pub mod Fifo
pub mod Progress
mod Tests
use systems_programming_proj.Prelude.{ℕ, Bool, true, false, Option, none, some, ◌==◌, if◌then◌else◌}
use systems_programming_proj.Pelikan.Tasks.{
  TaskState, blocked, ready, running, dead, Task, Store, update, Ends, isempty,
  add_task_to_ready_queue, remove_task_from_ready_queue, add_task_to_dead_queue,
  remove_task_from_dead_queue, add_task_to_mutex_queue, remove_task_from_mutex_queue,
}

-- The globals of the scheduler that decide what runs.
pub record Kernel : Type 0 where
  pub tasks : Store
  pub queue : Ends
  pub dead_q : Ends
  pub current_task : ℕ
  pub reaper_task : ℕ

pub record Mutex : Type 0 where
  pub locked : Bool
  pub holder : ℕ
  pub waiting : Ends

abbrev pub with_state : TaskState → Task → Task
with_state st t = record t { state = st }

abbrev pub set_state : TaskState → ℕ → Store → Store
set_state st t tasks = update t (with_state st) tasks

-- The loop up to the switch; `none` when the ready queue is empty and the loop goes round again.
unfoldable pub switch_to : Kernel → ℕ × (Ends × Store) → Option Kernel
switch_to k (next, (queue, tasks)) =
    if next == 0
    then none
    else some
        (record k { queue = queue; tasks = set_state running next tasks; current_task = next })

unfoldable pub take_next : Kernel → Option Kernel
take_next k = switch_to k (remove_task_from_ready_queue k.queue k.tasks)

unfoldable pub make_ready : ℕ → Kernel → Kernel
make_ready t k =
    let (queue, tasks) = add_task_to_ready_queue t k.queue (set_state ready t k.tasks) in
    record k { queue = queue; tasks = tasks }

unfoldable pub wake_reaper : TaskState → Kernel → Kernel
wake_reaper blocked k = make_ready k.reaper_task k
wake_reaper ready k = k
wake_reaper running k = k
wake_reaper dead k = k

unfoldable pub bury : Kernel → Kernel
bury k =
    let (dead_q, tasks) = add_task_to_dead_queue k.current_task k.dead_q k.tasks in
    record k { dead_q = dead_q; tasks = tasks }

-- What the loop does with the task that has switched back, by its state.
unfoldable pub settle_as : TaskState → Kernel → Kernel
settle_as running k = make_ready k.current_task k
settle_as dead k = let buried = bury k in wake_reaper (buried.tasks buried.reaper_task).state buried
settle_as blocked k = k
settle_as ready k = k

unfoldable pub settle : Kernel → Kernel
settle k = settle_as (k.tasks k.current_task).state k

-- `thread_exit`, up to the switch.
unfoldable pub thread_exit : Kernel → Kernel
thread_exit k = record k { tasks = set_state dead k.current_task k.tasks }

-- A round of the loop of `mutex_lock` that finds the lock taken, up to the switch.
unfoldable pub wait_for : Mutex → Kernel → Mutex × Kernel
wait_for lock k =
    let (waiting, tasks) =
      add_task_to_mutex_queue k.current_task lock.waiting
        (set_state blocked k.current_task k.tasks) in
    (record lock { waiting = waiting }, record k { tasks = tasks })

-- The end of `mutex_lock`.
unfoldable pub take_lock : Mutex → Kernel → Mutex
take_lock lock k = record lock { locked = true; holder = k.current_task }

unfoldable pub wake_waiter : Mutex → Kernel → ℕ × (Ends × Store) → Mutex × Kernel
wake_waiter lock k (task, (waiting, tasks)) =
    (record lock { waiting = waiting }, make_ready task (record k { tasks = tasks }))

unfoldable pub mutex_unlock : Mutex → Kernel → Mutex × Kernel
mutex_unlock lock k =
    let freed = record lock { locked = false; holder = 0 } in
    if isempty freed.waiting
    then (freed, k)
    else wake_waiter freed k (remove_task_from_mutex_queue freed.waiting k.tasks)

abbrev pub mutex_init : Mutex
mutex_init = record { locked = false; holder = 0; waiting = record { head = 0; tail = 0 } }

-- The two arms of the loop of `reaper_thread`, on the queue and the states: a corpse is taken, or the
-- reaper blocks, up to the switch.
unfoldable pub take_corpse : Kernel → ℕ × (Ends × Store) → Kernel
take_corpse k (corpse, (dead_q, tasks)) =
    if corpse == 0
    then record k { dead_q = dead_q; tasks = set_state blocked k.reaper_task tasks }
    else record k { dead_q = dead_q; tasks = tasks }

unfoldable pub reap : Kernel → Kernel
reap k = take_corpse k (remove_task_from_dead_queue k.dead_q k.tasks)
