-- ===== src/Pelikan/Scheduler/Locks.antt =====
-- The invariant of the queues under the operations of pelikanOS/src/mutex_lock.c.
use systems_programming_proj.Prelude.{
  ℕ, true, false, List, [], ◌∷◌, ◌++◌, ◌≡◌, refl, sym, ap, ◌∙◌, ◌≢◌, ◌==◌, ==_iff, arith,
}
use mathlib.Core.Path.{subst}
use systems_programming_proj.Pelikan.Tasks.{
  blocked, ready, running, dead, update, Ends, ready_link, wait_link, dead_link, add_task,
  remove_task,
}
use systems_programming_proj.Pelikan.Tasks.Chain.{Absent, update_self, update_other, update_field}
use systems_programming_proj.Pelikan.Tasks.Queue.{Absent-append, add_task_field}
use systems_programming_proj.Pelikan.Scheduler.{
  Kernel, Mutex, with_state, set_state, make_ready, wait_for, mutex_unlock, wake_waiter,
}
use systems_programming_proj.Pelikan.Scheduler.States.{
  AllState-Absent, Queues, Queues-outside, Queues-set_state, Queues-same, Queues-add, remove_first,
  Inv, make_ready-Inv,
}
use systems_programming_proj.Pelikan.Scheduler.Switches.{
  Runs, running_not_ready, running_not_dead, ready_not_blocked, running_not_blocked,
  dead_not_blocked,
}

-- The running task joins the queue of the mutex, BLOCKED.
pub wait_for-Inv :
    (lock : Mutex) (k : Kernel)
    → k.current_task ≢ k.reaper_task
    → Inv k lock.waiting
    → Runs k
    → Inv (wait_for lock k).1 (wait_for lock k).0.waiting
      × (((wait_for lock k).1.tasks (wait_for lock k).1.current_task).state ≡ blocked)
unfolding wait_for
wait_for-Inv lock k apart h runs =
    let t = k.current_task in
    let s = set_state blocked t k.tasks in
    let s' = (add_task wait_link t lock.waiting s).1 in
    let states = add_task_field (λ u. u.state) wait_link t lock.waiting s (λ n u. refl) in
    let waits : (s t).state ≡ blocked =
      ap (λ u. u.state) (update_self t (with_state blocked) k.tasks) in
    let out =
      AllState-Absent blocked k.tasks t h.w (λ e. running_not_blocked (sym runs.state ∙ e))
        h.wait_q.states in
    (
      record {
        r = h.r;
        d = h.d;
        w = h.w ++ t ∷ [];
        ready_q =
            Queues-same ready_link ready k.queue h.r s s'
              (add_task_field (λ u. u.ready_next) wait_link t lock.waiting s (λ n u. refl)) states
              (Queues-outside ready_link ready blocked running k.queue k.tasks h.r t
                running_not_ready runs.state h.ready_q);
        dead_q =
            Queues-same dead_link dead k.dead_q h.d s s'
              (add_task_field (λ u. u.dead_next) wait_link t lock.waiting s (λ n u. refl)) states
              (Queues-outside dead_link dead blocked running k.dead_q k.tasks h.d t running_not_dead
                runs.state h.dead_q);
        wait_q =
            Queues-add wait_link blocked lock.waiting s h.w t (λ n u. refl) runs.nonnull out waits
              (Queues-set_state wait_link blocked blocked lock.waiting k.tasks h.w t out h.wait_q);
        reaper_nonnull = h.reaper_nonnull;
        reaper_apart = Absent-append k.reaper_task t h.w h.reaper_apart (λ e. apart (sym e));
      },
      states t ∙ waits,
    )

pub make_ready_state :
    (k : Kernel) (t x : ℕ) → t ≢ x → ((make_ready t k).tasks x).state ≡ (k.tasks x).state
unfolding make_ready
make_ready_state k t x ne =
    add_task_field (λ u. u.state) ready_link t k.queue (set_state ready t k.tasks) (λ n u. refl) x
    ∙ ap (λ u. u.state) (update_other t x (with_state ready) k.tasks ne)

wake_waiter-Inv :
    (lock : Mutex) (k : Kernel) (h : Inv k lock.waiting) (x : ℕ) (xs : List ℕ) (q' : Ends)
    → Runs k
    → Absent k.reaper_task xs
    → Queues wait_link blocked lock.waiting k.tasks (x ∷ xs)
    → Queues wait_link blocked q' (update x (wait_link.put 0) k.tasks) xs
    → Inv (make_ready x (record k { tasks = update x (wait_link.put 0) k.tasks })) q'
      × Runs (make_ready x (record k { tasks = update x (wait_link.put 0) k.tasks }))
unfolding make_ready
wake_waiter-Inv lock k h x xs q' runs apart before rest =
    let s = k.tasks in
    let s₁ = update x (wait_link.put 0) s in
    let k₁ = record k { tasks = s₁ } in
    let states = update_field (λ u. u.state) x (wait_link.put 0) s (λ u. refl) in
    let h₁ : Inv k₁ q' = record {
      r = h.r;
      d = h.d;
      w = xs;
      ready_q =
          Queues-same ready_link ready k.queue h.r s s₁
            (update_field (λ u. u.ready_next) x (wait_link.put 0) s (λ u. refl)) states h.ready_q;
      dead_q =
          Queues-same dead_link dead k.dead_q h.d s s₁
            (update_field (λ u. u.dead_next) x (wait_link.put 0) s (λ u. refl)) states h.dead_q;
      wait_q = rest;
      reaper_nonnull = h.reaper_nonnull;
      reaper_apart = apart;
    } in
    let waits : (s₁ x).state ≡ blocked = states x ∙ before.states.0 in
    let other : x ≢ k.current_task = λ e.
      running_not_blocked (sym runs.state ∙ (ap (λ i. (s i).state) (sym e) ∙ before.states.0)) in
    (
      make_ready-Inv k₁ q' h₁ x before.holds.chain.1.0 (λ e. ready_not_blocked (sym e ∙ waits))
          (λ e. dead_not_blocked (sym e ∙ waits)) before.holds.distinct.0,
      record {
        nonnull = runs.nonnull;
        state = make_ready_state k₁ x k.current_task other ∙ (states k.current_task ∙ runs.state);
      },
    )

abbrev pub freed : Mutex → Mutex
freed lock = record lock { locked = false; holder = 0 }

pub unlock_none :
    (lock : Mutex) (k : Kernel)
    → (lock.waiting.head == 0) ≡ true
    → mutex_unlock lock k ≡ (freed lock, k)
unfolding mutex_unlock
unlock_none lock k e = simp (e) refl

pub unlock_first :
    (lock : Mutex) (k : Kernel)
    → (lock.waiting.head == 0) ≡ false
    → mutex_unlock lock k ≡ wake_waiter (freed lock) k (remove_task wait_link lock.waiting k.tasks)
unfolding mutex_unlock
unlock_first lock k e = simp (e) refl

abbrev Kept : Mutex × Kernel → Type 0
Kept (lock, k) = Inv k lock.waiting × Runs k

unlocked_from :
    (lock : Mutex) (k : Kernel) (h : Inv k lock.waiting) (l : List ℕ)
    → Runs k
    → Absent k.reaper_task l
    → Queues wait_link blocked lock.waiting k.tasks l
    → Kept (mutex_unlock lock k)
unfolding wake_waiter
unlocked_from lock k h [] runs apart wait_q =
    let e : (lock.waiting.head == 0) ≡ true = (==_iff lock.waiting.head 0).1 wait_q.holds.chain in
    subst Kept (sym (unlock_none lock k e)) (h, runs)
unlocked_from lock k h (x ∷ xs) runs apart wait_q =
    let chain = wait_q.holds.chain in
    let ne : lock.waiting.head ≢ 0 = λ e. chain.1.0 (sym chain.0 ∙ e) in
    let e : (lock.waiting.head == 0) ≡ false = ground (arith, ne) in
    let (q', (removed, rest)) =
      remove_first wait_link blocked lock.waiting k.tasks x xs (λ n u. refl) wait_q in
    subst Kept (sym (unlock_first lock k e ∙ ap (wake_waiter (freed lock) k) removed))
      (wake_waiter-Inv lock k h x xs q' runs apart.1 wait_q rest)

-- The lock is released, and the task that has waited longest is made ready.
pub mutex_unlock-Inv :
    (lock : Mutex) (k : Kernel)
    → Inv k lock.waiting
    → Runs k
    → Inv (mutex_unlock lock k).1 (mutex_unlock lock k).0.waiting × Runs (mutex_unlock lock k).1
mutex_unlock-Inv lock k h runs = unlocked_from lock k h h.w runs h.reaper_apart h.wait_q
