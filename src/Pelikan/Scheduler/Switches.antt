-- ===== src/Pelikan/Scheduler/Switches.antt =====
-- The invariant of the queues under the scheduling loop and `thread_exit` of
-- pelikanOS/src/scheduler.c.
use systems_programming_proj.Prelude.{
  ℕ, false, List, [], ◌∷◌, ◌++◌, ◌≡◌, refl, sym, ap, ◌∙◌, ◌≢◌, ◌==◌, arith, none, some,
}
use mathlib.Core.Path.{subst}
use mathlib.Core.Option.{some_inj, none-ne-some}
use systems_programming_proj.Pelikan.Tasks.{
  TaskState, blocked, ready, running, dead, update, Ends, ready_link, wait_link, dead_link,
  add_task,
}
use systems_programming_proj.Pelikan.Tasks.Chain.{Absent, update_self, update_field}
use systems_programming_proj.Pelikan.Tasks.Queue.{add_task_field}
use systems_programming_proj.Pelikan.Scheduler.{
  Kernel, with_state, set_state, take_next, make_ready, wake_reaper, bury, settle_as, settle,
  thread_exit, switch_to,
}
use systems_programming_proj.Pelikan.Scheduler.States.{
  AllState-Absent, Queues, Queues-set_state, Queues-outside, Queues-same, Queues-add, remove_none,
  remove_first, Inv, make_ready-Inv,
}

pub ready_not_dead : ready ≢ dead
ready_not_dead e = ground arith

pub ready_not_blocked : ready ≢ blocked
ready_not_blocked e = ground arith

pub running_not_ready : running ≢ ready
running_not_ready e = ground arith

pub running_not_dead : running ≢ dead
running_not_dead e = ground arith

pub running_not_blocked : running ≢ blocked
running_not_blocked e = ground arith

pub dead_not_blocked : dead ≢ blocked
dead_not_blocked e = ground arith

-- The current task runs: it is a task, in the state RUNNING.
pub record Runs (k : Kernel) : Type 0 where
  pub nonnull : k.current_task ≢ 0
  pub state : (k.tasks k.current_task).state ≡ running

-- A task that is in no queue changes its state.
pub set_state-Inv :
    (k : Kernel) (waiting : Ends) (h : Inv k waiting) (st : TaskState) (t : ℕ)
    → (k.tasks t).state ≡ running
    → Inv (record k { tasks = set_state st t k.tasks }) waiting
set_state-Inv k waiting h st t e = record {
  r = h.r;
  d = h.d;
  w = h.w;
  ready_q =
      Queues-outside ready_link ready st running k.queue k.tasks h.r t running_not_ready e
        h.ready_q;
  dead_q =
      Queues-outside dead_link dead st running k.dead_q k.tasks h.d t running_not_dead e h.dead_q;
  wait_q =
      Queues-outside wait_link blocked st running waiting k.tasks h.w t running_not_blocked e
        h.wait_q;
  reaper_nonnull = h.reaper_nonnull;
  reaper_apart = h.reaper_apart;
}

-- The first of the ready queue is taken.
abbrev pub dispatched : Kernel → ℕ → Ends → Kernel
dispatched k x queue = record k {
  queue = queue;
  tasks = set_state running x (update x (ready_link.put 0) k.tasks);
  current_task = x;
}

pub switch_to_first :
    (k : Kernel) (x : ℕ) (q' : Ends)
    → x ≢ 0
    → switch_to k (x, (q', update x (ready_link.put 0) k.tasks)) ≡ some (dispatched k x q')
unfolding switch_to
switch_to_first k x q' ne = let nonnull : (x == 0) ≡ false = ground (arith, ne) in rw nonnull refl

pub switch_to-none : (k : Kernel) → switch_to k (0, (k.queue, k.tasks)) ≡ none
unfolding switch_to
switch_to-none k = refl

dispatched-Inv :
    (k : Kernel) (waiting : Ends) (h : Inv k waiting) (x : ℕ) (xs : List ℕ) (q' : Ends)
    → Queues ready_link ready k.queue k.tasks (x ∷ xs)
    → Queues ready_link ready q' (update x (ready_link.put 0) k.tasks) xs
    → Inv (dispatched k x q') waiting × Runs (dispatched k x q')
dispatched-Inv k waiting h x xs q' before rest =
    let s = k.tasks in
    let s₁ = update x (ready_link.put 0) s in
    let states = update_field (λ u. u.state) x (ready_link.put 0) s (λ u. refl) in
    (
      record {
        r = xs;
        d = h.d;
        w = h.w;
        ready_q = Queues-set_state ready_link ready running q' s₁ xs x before.holds.distinct.0 rest;
        dead_q =
            Queues-set_state dead_link dead running k.dead_q s₁ h.d x
              (AllState-Absent dead s x h.d (λ e. ready_not_dead (sym before.states.0 ∙ e))
                h.dead_q.states)
              (Queues-same dead_link dead k.dead_q h.d s s₁
                (update_field (λ u. u.dead_next) x (ready_link.put 0) s (λ u. refl)) states
                h.dead_q);
        wait_q =
            Queues-set_state wait_link blocked running waiting s₁ h.w x
              (AllState-Absent blocked s x h.w (λ e. ready_not_blocked (sym before.states.0 ∙ e))
                h.wait_q.states)
              (Queues-same wait_link blocked waiting h.w s s₁
                (update_field (λ u. u.mutex_wait_next) x (ready_link.put 0) s (λ u. refl)) states
                h.wait_q);
        reaper_nonnull = h.reaper_nonnull;
        reaper_apart = h.reaper_apart;
      },
      record {
        nonnull = before.holds.chain.1.0;
        state = ap (λ u. u.state) (update_self x (with_state running) s₁);
      },
    )

taken_from :
    (k k' : Kernel) (waiting : Ends) (h : Inv k waiting) (l : List ℕ)
    → Queues ready_link ready k.queue k.tasks l
    → take_next k ≡ some k'
    → Inv k' waiting × Runs k'
unfolding take_next
taken_from k k' waiting h [] ready_q e = absurd (
    none-ne-some k' (
      sym
        (ap (switch_to k) (remove_none ready_link ready k.queue k.tasks ready_q) ∙ switch_to-none k)
      ∙ e))
taken_from k k' waiting h (x ∷ xs) ready_q e =
    let (q', (removed, rest)) =
      remove_first ready_link ready k.queue k.tasks x xs (λ n u. refl) ready_q in
    let taken : take_next k ≡ some (dispatched k x q') =
      ap (switch_to k) removed ∙ switch_to_first k x q' ready_q.holds.chain.1.0 in
    subst (λ j. Inv j waiting × Runs j) (some_inj.0 (sym taken ∙ e))
      (dispatched-Inv k waiting h x xs q' ready_q rest)

-- The switch to the next task: when the loop takes a task, the invariant holds and the task runs.
pub take_next-Inv :
    (k k' : Kernel) (waiting : Ends)
    → Inv k waiting
    → take_next k ≡ some k'
    → Inv k' waiting × Runs k'
take_next-Inv k k' waiting h e = taken_from k k' waiting h h.r h.ready_q e

-- The task that ran goes back to the ready queue.
pub settle_running : (k : Kernel) (waiting : Ends) → Inv k waiting → Runs k → Inv (settle k) waiting
unfolding settle settle_as
settle_running k waiting h runs =
    let inv : Inv (make_ready k.current_task k) waiting =
      make_ready-Inv k waiting h k.current_task runs.nonnull
        (λ e. running_not_ready (sym runs.state ∙ e)) (λ e. running_not_dead (sym runs.state ∙ e))
        (AllState-Absent blocked k.tasks k.current_task h.w
          (λ e. running_not_blocked (sym runs.state ∙ e)) h.wait_q.states) in
    subst (λ st. Inv (settle_as st k) waiting) (sym runs.state) inv

-- A task that waits stays where it is.
pub settle_blocked :
    (k : Kernel) (waiting : Ends)
    → (k.tasks k.current_task).state ≡ blocked
    → Inv k waiting
    → Inv (settle k) waiting
unfolding settle settle_as
settle_blocked k waiting e h = subst (λ st. Inv (settle_as st k) waiting) (sym e) h

wake_reaper-Inv :
    (k : Kernel) (waiting : Ends) (st : TaskState)
    → (k.tasks k.reaper_task).state ≡ st
    → Inv k waiting
    → Inv (wake_reaper st k) waiting
unfolding wake_reaper
wake_reaper-Inv k waiting blocked e h =
    make_ready-Inv k waiting h k.reaper_task h.reaper_nonnull (λ f. ready_not_blocked (sym f ∙ e))
      (λ f. dead_not_blocked (sym f ∙ e)) h.reaper_apart
wake_reaper-Inv k waiting ready e h = h
wake_reaper-Inv k waiting running e h = h
wake_reaper-Inv k waiting dead e h = h

bury-Inv :
    (k : Kernel) (waiting : Ends) (h : Inv k waiting)
    → k.current_task ≢ 0
    → (k.tasks k.current_task).state ≡ dead
    → Absent k.current_task h.d
    → Inv (bury k) waiting
unfolding bury
bury-Inv k waiting h nonnull e out =
    let t = k.current_task in
    let s' = (add_task dead_link t k.dead_q k.tasks).1 in
    let states = add_task_field (λ u. u.state) dead_link t k.dead_q k.tasks (λ n u. refl) in
    record {
      r = h.r;
      d = h.d ++ t ∷ [];
      w = h.w;
      ready_q =
          Queues-same ready_link ready k.queue h.r k.tasks s'
            (add_task_field (λ u. u.ready_next) dead_link t k.dead_q k.tasks (λ n u. refl)) states
            h.ready_q;
      dead_q =
          Queues-add dead_link dead k.dead_q k.tasks h.d t (λ n u. refl) nonnull out e h.dead_q;
      wait_q =
          Queues-same wait_link blocked waiting h.w k.tasks s'
            (add_task_field (λ u. u.mutex_wait_next) dead_link t k.dead_q k.tasks (λ n u. refl))
            states h.wait_q;
      reaper_nonnull = h.reaper_nonnull;
      reaper_apart = h.reaper_apart;
    }

-- A task that ends is buried, and the reaper is woken if it sleeps.
pub exit-Inv :
    (k : Kernel) (waiting : Ends) → Inv k waiting → Runs k → Inv (settle (thread_exit k)) waiting
unfolding settle settle_as thread_exit set_state-Inv
exit-Inv k waiting h runs =
    let k₁ = thread_exit k in
    let dies : (k₁.tasks k₁.current_task).state ≡ dead =
      ap (λ u. u.state) (update_self k.current_task (with_state dead) k.tasks) in
    let h₁ = set_state-Inv k waiting h dead k.current_task runs.state in
    let out =
      AllState-Absent dead k.tasks k.current_task h.d (λ e. running_not_dead (sym runs.state ∙ e))
        h.dead_q.states in
    let buried = bury-Inv k₁ waiting h₁ runs.nonnull dies out in
    subst (λ st. Inv (settle_as st k₁) waiting) (sym dies) (wake_reaper-Inv _ waiting _ refl buried)
