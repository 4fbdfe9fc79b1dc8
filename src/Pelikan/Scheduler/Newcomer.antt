-- ===== src/Pelikan/Scheduler/Newcomer.antt =====
-- A task that `create_task` of pelikanOS/src/scheduler.c makes while another one runs.
use systems_programming_proj.Prelude.{ℕ, List, [], ◌∷◌, ◌++◌, ◌≡◌, sym, ap, ◌∙◌, ◌≢◌}
use systems_programming_proj.Pelikan.Tasks.{
  TaskState, blocked, ready, dead, Task, Store, update, Link, Ends, ready_link, wait_link,
  dead_link,
}
use systems_programming_proj.Pelikan.Tasks.Chain.{Absent, update_self, update_other}
use systems_programming_proj.Pelikan.Tasks.Queue.{Holds, Holds-Absent}
use systems_programming_proj.Pelikan.Scheduler.{Kernel, Mutex, make_ready}
use systems_programming_proj.Pelikan.Scheduler.States.{AllState-update, Queues, Inv, make_ready-Inv}
use systems_programming_proj.Pelikan.Scheduler.Switches.{Runs, ready_not_blocked, dead_not_blocked}
use systems_programming_proj.Pelikan.Scheduler.Locks.{make_ready_state}
use systems_programming_proj.Pelikan.Scheduler.Waiting.{Ready, make_ready-Ready}
use systems_programming_proj.Pelikan.Create.{new_task, enter}

-- The queue does not hold the task.
abbrev NotIn : (t : ℕ) (link : Link) → Ends → Store → Type 0
NotIn t link q s = (l : List ℕ) → Holds link q s l → Absent t l

-- Memory that no task is in: it is not null, and it is neither the running task nor in a queue.
pub record Unused (t : ℕ) (k : Kernel) (lock : Mutex) : Type 0 where
  pub nonnull : t ≢ 0
  pub current : t ≢ k.current_task
  pub ready_q : NotIn t ready_link k.queue k.tasks
  pub dead_q : NotIn t dead_link k.dead_q k.tasks
  pub wait_q : NotIn t wait_link lock.waiting k.tasks

-- `create_task` on the queues: the structure is filled in and enters the ready queue.
abbrev pub filled : (t : ℕ) → Task → Kernel → Kernel
filled t u k = record k { tasks = update t (λ v. u) k.tasks }

abbrev pub created : (t code id page_directory stack_base esp : ℕ) → Kernel → Kernel
created t code id page_directory stack_base esp k =
    enter 0 t (filled t (new_task code id page_directory stack_base esp) k)

filled-Queues :
    (link : Link) (st : TaskState) (q : Ends) (s : Store) (l : List ℕ) (t : ℕ) (u : Task)
    → Absent t l
    → Queues link st q s l
    → Queues link st q (update t (λ v. u) s) l
filled-Queues link st q s l t u out h = record {
  holds = Holds-Absent link q s l t (λ v. u) out h.holds;
  states = AllState-update st s t (λ v. u) l out h.states;
}

module _ (t code id page_directory stack_base esp : ℕ) (k : Kernel) (lock : Mutex)
    (free : Unused t k lock) where
  abbrev u : Task
  u = new_task code id page_directory stack_base esp

  abbrev k₁ : Kernel
  k₁ = filled t u k

  is_blocked : (k₁.tasks t).state ≡ blocked
  is_blocked = ap (λ v. v.state) (update_self t (λ v. u) k.tasks)

  pub created-Ready :
      (l : List ℕ)
      → Ready k l
      → Ready (created t code id page_directory stack_base esp k) (l ++ t ∷ [])
  unfolding enter
  created-Ready l h =
      let out = free.ready_q l h.queue.holds in
      make_ready-Ready k₁ l t free.nonnull out (record {
        queue = filled-Queues ready_link ready k.queue k.tasks l t u out h.queue;
        reaper = h.reaper;
      })

  pub created-Inv :
      Inv k lock.waiting → Inv (created t code id page_directory stack_base esp k) lock.waiting
  unfolding enter
  created-Inv h =
      let apart = free.wait_q h.w h.wait_q.holds in
      let h₁ : Inv k₁ lock.waiting = record {
        r = h.r;
        d = h.d;
        w = h.w;
        ready_q =
            filled-Queues ready_link ready k.queue k.tasks h.r t u
              (free.ready_q h.r h.ready_q.holds) h.ready_q;
        dead_q =
            filled-Queues dead_link dead k.dead_q k.tasks h.d t u (free.dead_q h.d h.dead_q.holds)
              h.dead_q;
        wait_q = filled-Queues wait_link blocked lock.waiting k.tasks h.w t u apart h.wait_q;
        reaper_nonnull = h.reaper_nonnull;
        reaper_apart = h.reaper_apart;
      } in
      make_ready-Inv k₁ lock.waiting h₁ t free.nonnull (λ e. ready_not_blocked (sym e ∙ is_blocked))
        (λ e. dead_not_blocked (sym e ∙ is_blocked)) apart

  pub created-Runs : Runs k → Runs (created t code id page_directory stack_base esp k)
  unfolding enter make_ready
  created-Runs h = record {
    nonnull = h.nonnull;
    state =
        make_ready_state k₁ t k.current_task free.current
        ∙ (ap (λ v. v.state) (update_other t k.current_task (λ v. u) k.tasks free.current)
            ∙ h.state);
  }
