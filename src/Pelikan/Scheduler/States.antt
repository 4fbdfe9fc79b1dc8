-- ===== src/Pelikan/Scheduler/States.antt =====
-- What the queues of pelikanOS/src/scheduler.c hold: each queue the tasks of one state.
use systems_programming_proj.Prelude.{ℕ, List, [], ◌∷◌, ◌++◌, ◌≡◌, refl, sym, ap, ◌∙◌, ◌≢◌}
use systems_programming_proj.Pelikan.Tasks.{
  TaskState, blocked, ready, dead, Task, Store, update, Link, Ends, ready_link, wait_link,
  dead_link, add_task, remove_task,
}
use systems_programming_proj.Pelikan.Tasks.Chain.{Absent, update_self, update_other, update_field}
use systems_programming_proj.Pelikan.Tasks.Queue.{
  Holds, Holds-Absent, Holds-same, add_task-Holds, add_task_field, Removes, none_left, oldest,
  remove_task-Removes,
}
use systems_programming_proj.Pelikan.Scheduler.{Kernel, with_state, set_state, make_ready}

abbrev pub AllState : TaskState → Store → List ℕ → Type 0
AllState st s [] = Unit
AllState st s (x ∷ xs) = ((s x).state ≡ st) × AllState st s xs

pub AllState-Absent :
    (st : TaskState) (s : Store) (t : ℕ) (l : List ℕ)
    → (s t).state ≢ st
    → AllState st s l
    → Absent t l
AllState-Absent st s t [] ne h = tt
AllState-Absent st s t (x ∷ xs) ne h =
    (λ e. ne (ap (λ i. (s i).state) e ∙ h.0), AllState-Absent st s t xs ne h.1)

AllState-same :
    (st : TaskState) (s s' : Store) (l : List ℕ)
    → ((x : ℕ) → (s' x).state ≡ (s x).state)
    → AllState st s l
    → AllState st s' l
AllState-same st s s' [] same h = tt
AllState-same st s s' (x ∷ xs) same h = (same x ∙ h.0, AllState-same st s s' xs same h.1)

pub AllState-update :
    (st : TaskState) (s : Store) (t : ℕ) (f : Task → Task) (l : List ℕ)
    → Absent t l
    → AllState st s l
    → AllState st (update t f s) l
AllState-update st s t f [] out h = tt
AllState-update st s t f (x ∷ xs) out h =
    (ap (λ u. u.state) (update_other t x f s out.0) ∙ h.0, AllState-update st s t f xs out.1 h.1)

AllState-append :
    (st : TaskState) (s : Store) (t : ℕ) (l : List ℕ)
    → (s t).state ≡ st
    → AllState st s l
    → AllState st s (l ++ t ∷ [])
AllState-append st s t [] e h = (e, tt)
AllState-append st s t (x ∷ xs) e h = (h.0, AllState-append st s t xs e h.1)

-- A queue, with the state that its tasks have.
pub record Queues (link : Link) (st : TaskState) (q : Ends) (s : Store) (l : List ℕ) : Type 0 where
  pub holds : Holds link q s l
  pub states : AllState st s l

-- A change of the state of a task outside the queue.
pub Queues-set_state :
    (link : Link) (st st' : TaskState) (q : Ends) (s : Store) (l : List ℕ) (t : ℕ)
    → Absent t l
    → Queues link st q s l
    → Queues link st q (set_state st' t s) l
Queues-set_state link st st' q s l t out h = record {
  holds = Holds-Absent link q s l t (with_state st') out h.holds;
  states = AllState-update st s t (with_state st') l out h.states;
}

-- The same for a task in another state.
pub Queues-outside :
    (link : Link) (st st' other : TaskState) (q : Ends) (s : Store) (l : List ℕ) (t : ℕ)
    → other ≢ st
    → (s t).state ≡ other
    → Queues link st q s l
    → Queues link st q (set_state st' t s) l
Queues-outside link st st' other q s l t ne e h =
    Queues-set_state link st st' q s l t (AllState-Absent st s t l (λ f. ne (sym e ∙ f)) h.states) h

-- A change of the store that neither the link nor a state sees.
pub Queues-same :
    (link : Link) (st : TaskState) (q : Ends) (l : List ℕ) (s s' : Store)
    → ((x : ℕ) → link.get (s' x) ≡ link.get (s x))
    → ((x : ℕ) → (s' x).state ≡ (s x).state)
    → Queues link st q s l
    → Queues link st q s' l
Queues-same link st q l s s' same states h = record {
  holds = Holds-same link q l same h.holds;
  states = AllState-same st s s' l states h.states;
}

-- A task of the right state is added.
pub Queues-add :
    (link : Link) (st : TaskState) (q : Ends) (s : Store) (l : List ℕ) (t : ℕ)
    → ((n : ℕ) (u : Task) → (link.put n u).state ≡ u.state)
    → t ≢ 0
    → Absent t l
    → (s t).state ≡ st
    → Queues link st q s l
    → Queues link st (add_task link t q s).0 (add_task link t q s).1 (l ++ t ∷ [])
Queues-add link st q s l t keeps nonnull out e h =
    let same = add_task_field (λ u. u.state) link t q s keeps in
    record {
      holds = add_task-Holds link q s l t nonnull out h.holds;
      states =
          AllState-append st (add_task link t q s).1 t l (same t ∙ e)
            (AllState-same st s (add_task link t q s).1 l same h.states);
    }

taken_first :
    (link : Link) (q : Ends) (s : Store) (x : ℕ) (xs : List ℕ) (o : ℕ × (Ends × Store))
    → Removes link q s (x ∷ xs) o
    → (q' : Ends) × ((o ≡ (x, (q', update x (link.put 0) s)))
        × Holds link q' (update x (link.put 0) s) xs)
taken_first link q s x xs o (oldest {q' = q'} _ _ nonnull h) = (q', (refl, h))

taken_none :
    (link : Link) (q : Ends) (s : Store) (o : ℕ × (Ends × Store))
    → Removes link q s [] o
    → o ≡ (0, (q, s))
taken_none link q s o none_left = refl

pub remove_none :
    (link : Link) (st : TaskState) (q : Ends) (s : Store)
    → Queues link st q s []
    → remove_task link q s ≡ (0, (q, s))
remove_none link st q s h = taken_none link q s _ (remove_task-Removes link q s [] h.holds)

-- The oldest task leaves the queue.
pub remove_first :
    (link : Link) (st : TaskState) (q : Ends) (s : Store) (x : ℕ) (xs : List ℕ)
    → ((n : ℕ) (u : Task) → (link.put n u).state ≡ u.state)
    → Queues link st q s (x ∷ xs)
    → (q' : Ends) × ((remove_task link q s ≡ (x, (q', update x (link.put 0) s)))
        × Queues link st q' (update x (link.put 0) s) xs)
remove_first link st q s x xs keeps h =
    let (q', (e, rest)) =
      taken_first link q s x xs _ (remove_task-Removes link q s (x ∷ xs) h.holds) in
    (
      q',
      (
        e,
        record {
          holds = rest;
          states =
              AllState-same st s (update x (link.put 0) s) xs
                (update_field (λ u. u.state) x (link.put 0) s (keeps 0)) h.states.1;
        },
      ),
    )

-- The invariant of the scheduler's queues and of the queue of one mutex: a task in the ready queue is
-- READY, one in the dead queue DEAD and one that waits for the mutex BLOCKED, each queue is a
-- well-linked list without repetition, and the reaper does not wait for the mutex.
pub record Inv (k : Kernel) (waiting : Ends) : Type 0 where
  pub r : List ℕ
  pub d : List ℕ
  pub w : List ℕ
  pub ready_q : Queues ready_link ready k.queue k.tasks r
  pub dead_q : Queues dead_link dead k.dead_q k.tasks d
  pub wait_q : Queues wait_link blocked waiting k.tasks w
  pub reaper_nonnull : k.reaper_task ≢ 0
  pub reaper_apart : Absent k.reaper_task w

pub make_ready-Inv :
    (k : Kernel) (waiting : Ends) (h : Inv k waiting) (t : ℕ)
    → t ≢ 0
    → (k.tasks t).state ≢ ready
    → (k.tasks t).state ≢ dead
    → Absent t h.w
    → Inv (make_ready t k) waiting
unfolding make_ready
make_ready-Inv k waiting h t nonnull not_ready not_dead apart =
    let s = set_state ready t k.tasks in
    let s' = (add_task ready_link t k.queue s).1 in
    let states = add_task_field (λ u. u.state) ready_link t k.queue s (λ n u. refl) in
    let outside = AllState-Absent ready k.tasks t h.r not_ready h.ready_q.states in
    record {
      r = h.r ++ t ∷ [];
      d = h.d;
      w = h.w;
      ready_q =
          Queues-add ready_link ready k.queue s h.r t (λ n u. refl) nonnull outside
            (ap (λ u. u.state) (update_self t (with_state ready) k.tasks))
            (Queues-set_state ready_link ready ready k.queue k.tasks h.r t outside h.ready_q);
      dead_q =
          Queues-same dead_link dead k.dead_q h.d s s'
            (add_task_field (λ u. u.dead_next) ready_link t k.queue s (λ n u. refl)) states
            (Queues-set_state dead_link dead ready k.dead_q k.tasks h.d t
              (AllState-Absent dead k.tasks t h.d not_dead h.dead_q.states) h.dead_q);
      wait_q =
          Queues-same wait_link blocked waiting h.w s s'
            (add_task_field (λ u. u.mutex_wait_next) ready_link t k.queue s (λ n u. refl)) states
            (Queues-set_state wait_link blocked ready waiting k.tasks h.w t apart h.wait_q);
      reaper_nonnull = h.reaper_nonnull;
      reaper_apart = h.reaper_apart;
    }
