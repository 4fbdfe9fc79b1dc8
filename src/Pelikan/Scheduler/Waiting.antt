-- ===== src/Pelikan/Scheduler/Waiting.antt =====
-- How a task of pelikanOS/src/scheduler.c gives up the processor, and the ready queue behind it.
use mathlib.Core.Path.{subst}
use systems_programming_proj.Prelude.{
  append_nil, ℕ, true, false, ◌==◌, ==_iff, arith, List, [], ◌∷◌, ◌++◌, ◌≡◌, refl, sym, ap, ◌∙◌,
  ◌≢◌,
}
use systems_programming_proj.Pelikan.Tasks.{
  TaskState, blocked, ready, running, dead, ready_link, wait_link, dead_link, add_task, update,
  Ends,
}
use systems_programming_proj.Pelikan.Tasks.Chain.{Absent, update_self, update_field}
use systems_programming_proj.Pelikan.Tasks.Queue.{add_task_field}
use systems_programming_proj.Pelikan.Scheduler.{
  Kernel, Mutex, with_state, set_state, make_ready, wake_reaper, bury, settle_as, settle,
  thread_exit, wait_for, mutex_unlock, wake_waiter, reap, take_corpse,
}
use systems_programming_proj.Pelikan.Scheduler.States.{
  AllState-Absent, Queues, Queues-set_state, Queues-same, Queues-add, remove_none, remove_first,
  Inv,
}
use systems_programming_proj.Pelikan.Scheduler.Switches.{ready_not_blocked}
use systems_programming_proj.Pelikan.Scheduler.Locks.{unlock_none, unlock_first, freed}
use systems_programming_proj.Pelikan.Scheduler.Reaper.{take_corpse_none, take_corpse_first}

-- The ready queue is the list, and there is a reaper.
pub record Ready (k : Kernel) (l : List ℕ) : Type 0 where
  pub queue : Queues ready_link ready k.queue k.tasks l
  pub reaper : k.reaper_task ≢ 0

-- The current task runs and is not in the ready queue.
pub record Current (k : Kernel) (x : ℕ) (l : List ℕ) : Type 0 where
  pub current : k.current_task ≡ x
  pub nonnull : x ≢ 0
  pub runs : (k.tasks x).state ≡ running
  pub apart : Absent x l
  pub waiting : Ready k l

pub make_ready-Ready :
    (k : Kernel) (l : List ℕ) (t : ℕ)
    → t ≢ 0
    → Absent t l
    → Ready k l
    → Ready (make_ready t k) (l ++ t ∷ [])
unfolding make_ready
make_ready-Ready k l t nonnull out h = record {
  queue =
      Queues-add ready_link ready k.queue (set_state ready t k.tasks) l t (λ n u. refl) nonnull out
        (ap (λ u. u.state) (update_self t (with_state ready) k.tasks))
        (Queues-set_state ready_link ready ready k.queue k.tasks l t out h.queue);
  reaper = h.reaper;
}

set_state-Ready :
    (k : Kernel) (l : List ℕ) (st : TaskState) (t : ℕ)
    → Absent t l
    → Ready k l
    → Ready (record k { tasks = set_state st t k.tasks }) l
set_state-Ready k l st t out h = record {
  queue = Queues-set_state ready_link ready st k.queue k.tasks l t out h.queue;
  reaper = h.reaper;
}

bury-Ready : (k : Kernel) (l : List ℕ) → Ready k l → Ready (bury k) l
unfolding bury
bury-Ready k l h =
    let t = k.current_task in
    let s' = (add_task dead_link t k.dead_q k.tasks).1 in
    record {
      queue =
          Queues-same ready_link ready k.queue l k.tasks s'
            (add_task_field (λ u. u.ready_next) dead_link t k.dead_q k.tasks (λ n u. refl))
            (add_task_field (λ u. u.state) dead_link t k.dead_q k.tasks (λ n u. refl)) h.queue;
      reaper = h.reaper;
    }

wake_reaper-Ready :
    (k : Kernel) (l : List ℕ) (st : TaskState)
    → (k.tasks k.reaper_task).state ≡ st
    → Ready k l
    → (ys : List ℕ) × Ready (wake_reaper st k) (l ++ ys)
unfolding wake_reaper
wake_reaper-Ready k l blocked e h =
    let out =
      AllState-Absent ready k.tasks k.reaper_task l (λ f. ready_not_blocked (sym f ∙ e))
        h.queue.states in
    (k.reaper_task ∷ [], make_ready-Ready k l k.reaper_task h.reaper out h)
wake_reaper-Ready k l ready e h = ([], subst (Ready k) (sym (append_nil l)) h)
wake_reaper-Ready k l running e h = ([], subst (Ready k) (sym (append_nil l)) h)
wake_reaper-Ready k l dead e h = ([], subst (Ready k) (sym (append_nil l)) h)

-- At a tick of the timer the task goes to the end of the queue.
pub yield-Ready :
    (k : Kernel) (x : ℕ) (l : List ℕ) → Current k x l → (ys : List ℕ) × Ready (settle k) (l ++ ys)
unfolding settle settle_as
yield-Ready k x l h =
    let k' = make_ready k.current_task k in
    let added : Ready k' (l ++ k.current_task ∷ []) =
      make_ready-Ready k l k.current_task (λ e. h.nonnull (sym h.current ∙ e))
        (subst (λ i. Absent i l) (sym h.current) h.apart) h.waiting in
    let runs : (k.tasks k.current_task).state ≡ running =
      ap (λ i. (k.tasks i).state) h.current ∙ h.runs in
    (
      k.current_task ∷ [],
      subst (λ st. Ready (settle_as st k) (l ++ k.current_task ∷ [])) (sym runs) added,
    )

-- When a task ends, the reaper may join the queue.
pub exit-Ready :
    (k : Kernel) (x : ℕ) (l : List ℕ)
    → Current k x l
    → (ys : List ℕ) × Ready (settle (thread_exit k)) (l ++ ys)
unfolding settle settle_as thread_exit
exit-Ready k x l h =
    let k₁ = record k { tasks = set_state dead k.current_task k.tasks } in
    let out = subst (λ i. Absent i l) (sym h.current) h.apart in
    let dies : (k₁.tasks k₁.current_task).state ≡ dead =
      ap (λ u. u.state) (update_self k.current_task (with_state dead) k.tasks) in
    let buried = bury-Ready k₁ l (set_state-Ready k l dead k.current_task out h.waiting) in
    let (ys, woken) = wake_reaper-Ready (bury k₁) l _ refl buried in
    (ys, subst (λ st. Ready (settle_as st k₁) (l ++ ys)) (sym dies) woken)

-- A task that sleeps does not return to the queue.
pub sleep-Ready :
    (k : Kernel) (l : List ℕ)
    → (k.tasks k.current_task).state ≡ blocked
    → Ready k l
    → Ready (settle k) l
unfolding settle settle_as
sleep-Ready k l asleep h = subst (λ st. Ready (settle_as st k) l) (sym asleep) h

pub wait-Ready :
    (lock : Mutex) (k : Kernel) (x : ℕ) (l : List ℕ)
    → Current k x l
    → Ready (settle (wait_for lock k).1) l
unfolding wait_for
wait-Ready lock k x l h =
    let c = k.current_task in
    let s₁ = set_state blocked c k.tasks in
    let s₂ = (add_task wait_link c lock.waiting s₁).1 in
    let k₂ = record k { tasks = s₂ } in
    let out = subst (λ i. Absent i l) (sym h.current) h.apart in
    let states = add_task_field (λ u. u.state) wait_link c lock.waiting s₁ (λ n u. refl) in
    let asleep : (k₂.tasks k₂.current_task).state ≡ blocked =
      states c ∙ ap (λ u. u.state) (update_self c (with_state blocked) k.tasks) in
    sleep-Ready k₂ l asleep (record {
      queue =
          Queues-same ready_link ready k.queue l s₁ s₂
            (add_task_field (λ u. u.ready_next) wait_link c lock.waiting s₁ (λ n u. refl)) states
            (set_state-Ready k l blocked c out h.waiting).queue;
      reaper = h.waiting.reaper;
    })

-- The task that has waited longest for the mutex joins the queue, if there is one.
unlock_from :
    (lock : Mutex) (k : Kernel) (l w : List ℕ)
    → Queues wait_link blocked lock.waiting k.tasks w
    → Ready k l
    → (ys : List ℕ) × Ready (mutex_unlock lock k).1 (l ++ ys)
unfolding wake_waiter
unlock_from lock k l [] waits h =
    let e : (lock.waiting.head == 0) ≡ true = (==_iff lock.waiting.head 0).1 waits.holds.chain in
    (
      [],
      subst (λ o. Ready o.1 (l ++ [])) (sym (unlock_none lock k e))
          (subst (Ready k) (sym (append_nil l)) h),
    )
unlock_from lock k l (x ∷ xs) waits h =
    let chain = waits.holds.chain in
    let ne : lock.waiting.head ≢ 0 = λ e. chain.1.0 (sym chain.0 ∙ e) in
    let e : (lock.waiting.head == 0) ≡ false = ground (arith, ne) in
    let (q', (removed, rest)) =
      remove_first wait_link blocked lock.waiting k.tasks x xs (λ n u. refl) waits in
    let s₁ = update x (wait_link.put 0) k.tasks in
    let out =
      AllState-Absent ready k.tasks x l (λ f. ready_not_blocked (sym f ∙ waits.states.0))
        h.queue.states in
    let kept : Ready (record k { tasks = s₁ }) l = record {
      queue =
          Queues-same ready_link ready k.queue l k.tasks s₁
            (update_field (λ u. u.ready_next) x (wait_link.put 0) k.tasks (λ u. refl))
            (update_field (λ u. u.state) x (wait_link.put 0) k.tasks (λ u. refl)) h.queue;
      reaper = h.reaper;
    } in
    (
      x ∷ [],
      subst (λ o. Ready o.1 (l ++ x ∷ []))
          (sym (unlock_first lock k e ∙ ap (wake_waiter (freed lock) k) removed))
          (make_ready-Ready (record k { tasks = s₁ }) l x chain.1.0 out kept),
    )

pub unlock-Ready :
    (lock : Mutex) (k : Kernel) (l : List ℕ)
    → Inv k lock.waiting
    → Ready k l
    → (ys : List ℕ) × Ready (mutex_unlock lock k).1 (l ++ ys)
unlock-Ready lock k l inv h = unlock_from lock k l inv.w inv.wait_q h

reap_from :
    (k : Kernel) (l d : List ℕ)
    → Absent k.reaper_task l
    → Queues dead_link dead k.dead_q k.tasks d
    → Ready k l
    → Ready (reap k) l
unfolding reap
reap_from k l [] out dead_q h =
    subst (λ i. Ready i l)
      (sym (
        ap (take_corpse k) (remove_none dead_link dead k.dead_q k.tasks dead_q)
        ∙ take_corpse_none k))
      (set_state-Ready k l blocked k.reaper_task out h)
reap_from k l (x ∷ xs) out dead_q h =
    let s₁ = update x (dead_link.put 0) k.tasks in
    let (q', (removed, rest)) =
      remove_first dead_link dead k.dead_q k.tasks x xs (λ n u. refl) dead_q in
    subst (λ i. Ready i l)
      (sym (ap (take_corpse k) removed ∙ take_corpse_first k x q' s₁ dead_q.holds.chain.1.0))
      (record {
        queue =
            Queues-same ready_link ready k.queue l k.tasks s₁
              (update_field (λ u. u.ready_next) x (dead_link.put 0) k.tasks (λ u. refl))
              (update_field (λ u. u.state) x (dead_link.put 0) k.tasks (λ u. refl)) h.queue;
        reaper = h.reaper;
      })

-- The reaper takes a corpse or marks itself, and the queue stays.
pub reap-Ready :
    (k : Kernel) (waiting : Ends) (x : ℕ) (l : List ℕ)
    → Inv k waiting
    → k.current_task ≡ k.reaper_task
    → Current k x l
    → Ready (reap k) l
reap-Ready k waiting x l inv self h =
    let out = subst (λ i. Absent i l) (sym h.current ∙ self) h.apart in
    reap_from k l inv.d out inv.dead_q h.waiting
