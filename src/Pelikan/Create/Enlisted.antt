-- ===== src/Pelikan/Create/Enlisted.antt =====
-- A new task in the ready queue and in the ring, in `create_task` of pelikanOS/src/scheduler.c.
use systems_programming_proj.Prelude.{
  ℕ, List, [], ◌∷◌, ◌≡◌, refl, sym, ◌∙◌, ◌≢◌, inl, inr, ◌==◌, Bool-cases,
}
use systems_programming_proj.Pelikan.Tasks.{ready, Task, Store, update, ready_link}
use systems_programming_proj.Pelikan.Tasks.Chain.{Absent, update_field}
use systems_programming_proj.Pelikan.Tasks.Queue.{Holds-Absent, add_task_field}
use systems_programming_proj.Pelikan.Scheduler.{Kernel, with_state, set_state, make_ready}
use systems_programming_proj.Pelikan.Scheduler.States.{AllState-update, Queues-same}
use systems_programming_proj.Pelikan.Scheduler.Waiting.{Ready}
use systems_programming_proj.Pelikan.Ring.{set_next, set_prev, insert_behind, insert_task}
use systems_programming_proj.Pelikan.Ring.Paths.{IsPath, end_of, end_of-differs}
use systems_programming_proj.Pelikan.Ring.Insert.{Rings, empty_ring, ring}

-- A store whose links are the same but for a task outside the path.
IsPath-outside :
    (s s' : Store) (t a : ℕ) (l : List ℕ)
    → ((y : ℕ) → t ≢ y → (s' y).next ≡ (s y).next)
    → ((y : ℕ) → t ≢ y → (s' y).prev ≡ (s y).prev)
    → t ≢ a
    → Absent t l
    → IsPath s a l
    → IsPath s' a l
IsPath-outside s s' t a [] nexts prevs here out h = tt
IsPath-outside s s' t a (b ∷ l) nexts prevs here out h = (
  nexts a here ∙ h.0,
  (prevs b out.0 ∙ h.1.0, IsPath-outside s s' t b l nexts prevs out.0 out.1 h.1.1),
)

end-in : (t a : ℕ) (l : List ℕ) → Absent t (a ∷ l) → t ≢ end_of a l
end-in t a l out = end_of-differs t a l out

pub Rings-outside :
    (s s' : Store) (t last : ℕ) (l : List ℕ)
    → ((y : ℕ) → t ≢ y → (s' y).next ≡ (s y).next)
    → ((y : ℕ) → t ≢ y → (s' y).prev ≡ (s y).prev)
    → Absent t l
    → Rings s last l
    → Rings s' last l
Rings-outside s s' t _ _ nexts prevs out empty_ring = empty_ring
Rings-outside s s' t last _ nexts prevs out (ring {x = x} {l = l} h) = ring (record {
  path =
      IsPath-outside s s' t last (x ∷ l) nexts prevs (λ e. end-in t x l out (e ∙ sym h.last_end))
        out h.path;
  last_end = h.last_end;
  distinct = h.distinct;
  nonnull = h.nonnull;
})

-- A field that `insert_task` does not write.
pub insert_task_field {ℓ} :
    {X : Type ℓ} (field : Task → X) (t last : ℕ) (s : Store)
    → ((n : ℕ) (u : Task) → field (set_next n u) ≡ field u)
    → ((n : ℕ) (u : Task) → field (set_prev n u) ≡ field u)
    → (x : ℕ) → field ((insert_task t last s).1 x) ≡ field (s x)
unfolding insert_task insert_behind
insert_task_field field t last s nexts prevs x = elim (Bool-cases (last == 0)) [
  | inl e ↦ rw e (
      update_field field t (set_prev t) _ (prevs t) x
      ∙ update_field field t (set_next t) s (nexts t) x)
  | inr e ↦ rw e (
      update_field field last (set_next t) _ (nexts t) x
      ∙ (update_field field _ (set_prev t) _ (prevs t) x
          ∙ (update_field field t (set_prev last) _ (prevs last) x
              ∙ update_field field t (set_next _) s (nexts _) x)))
]

-- The task structure is filled in.
pub filled-Ready :
    (k : Kernel) (l : List ℕ) (t : ℕ) (f : Task → Task)
    → Absent t l
    → Ready k l
    → Ready (record k { tasks = update t f k.tasks }) l
filled-Ready k l t f out h = record {
  queue = record {
    holds = Holds-Absent ready_link k.queue k.tasks l t f out h.queue.holds;
    states = AllState-update ready k.tasks t f l out h.queue.states;
  };
  reaper = h.reaper;
}

pub inserted-Ready :
    (k : Kernel) (l : List ℕ) (t last : ℕ)
    → Ready k l
    → Ready (record k { tasks = (insert_task t last k.tasks).1 }) l
inserted-Ready k l t last h = record {
  queue =
      Queues-same ready_link ready k.queue l k.tasks (insert_task t last k.tasks).1
        (insert_task_field (λ u. u.ready_next) t last k.tasks (λ n u. refl) (λ n u. refl))
        (insert_task_field (λ u. u.state) t last k.tasks (λ n u. refl) (λ n u. refl)) h.queue;
  reaper = h.reaper;
}

-- A field that `make_ready` does not write.
pub make_ready_field {ℓ} :
    {X : Type ℓ} (field : Task → X) (t : ℕ) (k : Kernel)
    → ((u : Task) → field (with_state ready u) ≡ field u)
    → ((n : ℕ) (u : Task) → field (ready_link.put n u) ≡ field u)
    → (x : ℕ) → field ((make_ready t k).tasks x) ≡ field (k.tasks x)
unfolding make_ready
make_ready_field field t k states links x =
    add_task_field field ready_link t k.queue (set_state ready t k.tasks) links x
    ∙ update_field field t (with_state ready) k.tasks states x
