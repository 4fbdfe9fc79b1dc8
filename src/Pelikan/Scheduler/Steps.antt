-- ===== src/Pelikan/Scheduler/Steps.antt =====
-- The kernel as it runs: the scheduling loop of pelikanOS/src/scheduler.c in turn with the tasks that
-- it switches to, and what these do to the queues. One mutex stands for all.
-- What create_task and the reaper do besides, to the ring, the heap and the page tables, is in
-- Pelikan/Create and Pelikan/Reap.
use systems_programming_proj.Prelude.{ℕ, true, false, ◌≡◌, ◌≢◌, inl, inr, some}
use systems_programming_proj.Pelikan.Tasks.{blocked}
use systems_programming_proj.Pelikan.Scheduler.{
  Kernel, Mutex, take_next, settle, thread_exit, wait_for, take_lock, mutex_unlock, reap,
}
use systems_programming_proj.Pelikan.Scheduler.States.{Inv}
use systems_programming_proj.Pelikan.Scheduler.Switches.{
  Runs, take_next-Inv, settle_running, settle_blocked, exit-Inv,
}
use systems_programming_proj.Pelikan.Scheduler.Locks.{wait_for-Inv, mutex_unlock-Inv}
use systems_programming_proj.Pelikan.Scheduler.Reaper.{reap-Inv}
use systems_programming_proj.Pelikan.Scheduler.Newcomer.{Unused, created, created-Inv, created-Runs}

-- Who has the processor.
pub data Phase : Type 0 where
  scheduling tasking : Phase

pub record System : Type 0 where
  pub phase : Phase
  pub kernel : Kernel
  pub lock : Mutex

abbrev pub sys : Phase → Kernel → Mutex → System
sys p k m = record { phase = p; kernel = k; lock = m }

-- `settle` is the part of the loop behind the switch, so it follows each switch back.
pub data Step : System → System → Type 0 where
  dispatches :
      {k k' : Kernel} {m : Mutex}
      → take_next k ≡ some k'
      → Step (sys scheduling k m) (sys tasking k' m)
  yields : {k : Kernel} {m : Mutex} → Step (sys tasking k m) (sys scheduling (settle k) m)
  exits :
      {k : Kernel} {m : Mutex}
      → k.current_task ≢ k.reaper_task
      → Step (sys tasking k m) (sys scheduling (settle (thread_exit k)) m)
  locks :
      {k : Kernel} {m : Mutex}
      → m.locked ≡ false
      → Step (sys tasking k m) (sys tasking k (take_lock m k))
  waits :
      {k : Kernel} {m : Mutex}
      → m.locked ≡ true
      → k.current_task ≢ k.reaper_task
      → Step (sys tasking k m) (sys scheduling (settle (wait_for m k).1) (wait_for m k).0)
  unlocks :
      {k : Kernel} {m : Mutex}
      → Step (sys tasking k m) (sys tasking (mutex_unlock m k).1 (mutex_unlock m k).0)
  reaps :
      {k : Kernel} {m : Mutex}
      → k.current_task ≡ k.reaper_task
      → ((reap k).tasks (reap k).current_task).state ≢ blocked
      → Step (sys tasking k m) (sys tasking (reap k) m)
  sleeps :
      {k : Kernel} {m : Mutex}
      → k.current_task ≡ k.reaper_task
      → ((reap k).tasks (reap k).current_task).state ≡ blocked
      → Step (sys tasking k m) (sys scheduling (settle (reap k)) m)
  creates :
      {k : Kernel} {m : Mutex} (t code id page_directory stack_base esp : ℕ)
      → Unused t k m
      → Step (sys tasking k m) (sys tasking (created t code id page_directory stack_base esp k) m)

pub data Steps : System → System → Type 0 where
  stop : {a : System} → Steps a a
  more : {a b c : System} → Step a b → Steps b c → Steps a c

-- While a task has the processor, that task is in the state RUNNING.
abbrev RunsIn : Phase → Kernel → Type 0
RunsIn scheduling k = Unit
RunsIn tasking k = Runs k

pub record Safe (s : System) : Type 0 where
  pub inv : Inv s.kernel s.lock.waiting
  pub runs : RunsIn s.phase s.kernel

pub Step-Safe : {a b : System} → Safe a → Step a b → Safe b
unfolding take_lock
Step-Safe h (dispatches {k} {k'} {m} e) =
    let (inv, runs) = take_next-Inv k k' m.waiting h.inv e in record { inv = inv; runs = runs }
Step-Safe h (yields {k} {m}) = record { inv = settle_running k m.waiting h.inv h.runs; runs = tt }
Step-Safe h (exits {k} {m} _) = record { inv = exit-Inv k m.waiting h.inv h.runs; runs = tt }
Step-Safe h (locks {k} {m} e) = record { inv = h.inv; runs = h.runs }
Step-Safe h (waits {k} {m} e apart) =
    let (inv, asleep) = wait_for-Inv m k apart h.inv h.runs in
    record { inv = settle_blocked _ _ asleep inv; runs = tt }
Step-Safe h (unlocks {k} {m}) =
    let (inv, runs) = mutex_unlock-Inv m k h.inv h.runs in record { inv = inv; runs = runs }
Step-Safe h (reaps {k} {m} self awake) = elim (reap-Inv k m.waiting self h.inv h.runs) [
  | inl both ↦ record { inv = both.0; runs = both.1 }
  | inr asleep ↦ absurd (awake asleep.1)
]
Step-Safe h (sleeps {k} {m} self asleep) = elim (reap-Inv k m.waiting self h.inv h.runs) [
  | inl both ↦ record { inv = settle_blocked (reap k) m.waiting asleep both.0; runs = tt }
  | inr both ↦ record { inv = settle_blocked (reap k) m.waiting asleep both.0; runs = tt }
]
Step-Safe h (creates {k} {m} t code id page_directory stack_base esp free) = record {
  inv = created-Inv t code id page_directory stack_base esp k m free h.inv;
  runs = created-Runs t code id page_directory stack_base esp k m free h.runs;
}

-- Whatever the tasks do in whatever order (yield, exit, take, wait for or release the mutex, create a
-- task in unused memory, or reap, where the reaper itself neither exits nor waits), the invariant stays: the ready queue, the
-- dead queue and the queue of the mutex are well-linked lists without repetition of tasks that are
-- READY, DEAD and BLOCKED, and the task that has the processor is RUNNING.
pub Steps-Safe : {a b : System} → Safe a → Steps a b → Safe b
Steps-Safe h stop = h
Steps-Safe h (more s rest) = Steps-Safe (Step-Safe h s) rest
