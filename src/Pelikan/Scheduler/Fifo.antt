-- ===== src/Pelikan/Scheduler/Fifo.antt =====
-- The order in which the loop of pelikanOS/src/scheduler.c serves the ready queue.
use mathlib.Core.Path.{subst}
use mathlib.Core.Option.{some_inj, none-ne-some}
use systems_programming_proj.Prelude.{
  ℕ, none, some, List, [], ◌∷◌, ◌++◌, append_nil, append_assoc, ◌≡◌, refl, sym, ap, ◌∙◌,
}
use systems_programming_proj.Pelikan.Tasks.{ready, running, update, ready_link}
use systems_programming_proj.Pelikan.Tasks.Chain.{update_self}
use systems_programming_proj.Pelikan.Scheduler.{Kernel, with_state, switch_to, take_next, reap}
use systems_programming_proj.Pelikan.Scheduler.States.{
  AllState-Absent, Queues-set_state, remove_none, remove_first,
}
use systems_programming_proj.Pelikan.Scheduler.Switches.{
  Runs, dispatched, switch_to_first, switch_to-none, running_not_ready,
}
use systems_programming_proj.Pelikan.Scheduler.Waiting.{
  Ready, Current, yield-Ready, exit-Ready, wait-Ready, sleep-Ready, unlock-Ready, reap-Ready,
}
use systems_programming_proj.Pelikan.Scheduler.Newcomer.{created-Ready}
use systems_programming_proj.Pelikan.Scheduler.Steps.{
  System, Step, dispatches, yields, exits, locks, waits, unlocks, reaps, sleeps, creates, Steps,
  stop, more, Safe, Step-Safe,
}

-- The tasks that the loop switches to in a run, in their order.
unfoldable pub switched : {a b : System} → Step a b → List ℕ
switched (dispatches {k} {k'} {m} e) = k'.current_task ∷ []
switched yields = []
switched (exits _) = []
switched (locks _) = []
switched (waits _ _) = []
switched unlocks = []
switched (reaps _ _) = []
switched (sleeps _ _) = []
switched (creates _ _ _ _ _ _ _) = []

unfoldable pub served : {a b : System} → Steps a b → List ℕ
served stop = []
served (more s rest) = switched s ++ served rest

-- The first task of the ready queue gets the processor.
pub take_next-Current :
    (k : Kernel) (x : ℕ) (l : List ℕ)
    → Ready k (x ∷ l)
    → (k' : Kernel) × ((take_next k ≡ some k') × Current k' x l)
unfolding take_next
take_next-Current k x l h =
    let (q', (taken, rest)) =
      remove_first ready_link ready k.queue k.tasks x l (λ n u. refl) h.queue in
    let s₁ = update x (ready_link.put 0) k.tasks in
    let k' = dispatched k x q' in
    let out = h.queue.holds.distinct.0 in
    let nonnull = h.queue.holds.chain.1.0 in
    (
      k',
      (
        ap (switch_to k) taken ∙ switch_to_first k x q' nonnull,
        record {
          current = refl;
          nonnull = nonnull;
          runs = ap (λ u. u.state) (update_self x (with_state running) s₁);
          apart = out;
          waiting = record {
            queue = Queues-set_state ready_link ready running q' s₁ l x out rest;
            reaper = h.reaper;
          };
        },
      ),
    )

take_next-none : (k : Kernel) → Ready k [] → take_next k ≡ none
unfolding take_next
take_next-none k h =
    ap (switch_to k) (remove_none ready_link ready k.queue k.tasks h.queue) ∙ switch_to-none k

-- The running task beside the queue.
pub Runs-Current : (k : Kernel) (l : List ℕ) → Runs k → Ready k l → Current k k.current_task l
Runs-Current k l runs h = record {
  current = refl;
  nonnull = runs.nonnull;
  runs = runs.state;
  apart =
      AllState-Absent ready k.tasks k.current_task l (λ e. running_not_ready (sym runs.state ∙ e))
        h.queue.states;
  waiting = h;
}

-- First come, first served: those served and those that still wait are those that waited, and
-- behind them those that came.
abbrev Fifo : List ℕ → Kernel → List ℕ → Type 0
Fifo gone k l = (rest : List ℕ) × ((ys : List ℕ) × ((gone ++ rest ≡ l ++ ys) × Ready k rest))

joined : (k : Kernel) (l : List ℕ) → ((ys : List ℕ) × Ready k (l ++ ys)) → Fifo [] k l
joined k l (ys, h) = (l ++ ys, (ys, (refl, h)))

stays : (k : Kernel) (l : List ℕ) → Ready k l → Fifo [] k l
stays k l h = (l, ([], (sym (append_nil l), h)))

dispatch-Fifo :
    (k k' : Kernel) (l : List ℕ)
    → take_next k ≡ some k'
    → Ready k l
    → Fifo (k'.current_task ∷ []) k' l
dispatch-Fifo k k' [] e h = absurd (none-ne-some k' (sym (take_next-none k h) ∙ e))
dispatch-Fifo k k' (x ∷ l) e h =
    let (k₁, (taken, current)) = take_next-Current k x l h in
    subst (λ j. Fifo (j.current_task ∷ []) j (x ∷ l)) (some_inj.0 (sym taken ∙ e))
      (
        l,
        (
          [],
          (ap (λ i. i ∷ l) current.current ∙ ap (λ i. x ∷ i) (sym (append_nil l)), current.waiting),
        ),
      )

switched-Fifo :
    {a b : System} (l : List ℕ)
    → Safe a
    → (s : Step a b) → Ready a.kernel l
    → Fifo (switched s) b.kernel l
unfolding switched
switched-Fifo l safe (dispatches {k} {k'} {m} e) h = dispatch-Fifo k k' l e h
switched-Fifo l safe (yields {k} {m}) h =
    joined _ l (yield-Ready k k.current_task l (Runs-Current k l safe.runs h))
switched-Fifo l safe (exits {k} {m} _) h =
    joined _ l (exit-Ready k k.current_task l (Runs-Current k l safe.runs h))
switched-Fifo l safe (locks {k} {m} _) h = stays k l h
switched-Fifo l safe (waits {k} {m} _ _) h =
    stays _ l (wait-Ready m k k.current_task l (Runs-Current k l safe.runs h))
switched-Fifo l safe (unlocks {k} {m}) h = joined _ l (unlock-Ready m k l safe.inv h)
switched-Fifo l safe (reaps {k} {m} self _) h =
    stays _ l (reap-Ready k m.waiting k.current_task l safe.inv self (Runs-Current k l safe.runs h))
switched-Fifo l safe (sleeps {k} {m} self asleep) h = stays _ l (
    sleep-Ready (reap k) l asleep
      (reap-Ready k m.waiting k.current_task l safe.inv self (Runs-Current k l safe.runs h)))
switched-Fifo l safe (creates {k} {m} t code id page_directory stack_base esp free) h =
    joined _ l (t ∷ [], created-Ready t code id page_directory stack_base esp k m free l h)

pub served-Fifo :
    {a b : System} (l : List ℕ)
    → Safe a
    → (run : Steps a b) → Ready a.kernel l
    → Fifo (served run) b.kernel l
unfolding served
served-Fifo {a = a} l safe stop h = stays a.kernel l h
served-Fifo l safe (more s rest) h =
    let (l₁, (ys₁, (e₁, h₁))) = switched-Fifo l safe s h in
    let (l₂, (ys₂, (e₂, h₂))) = served-Fifo l₁ (Step-Safe safe s) rest h₁ in
    (
      l₂,
      (
        ys₁ ++ ys₂,
        (
          append_assoc (switched s) (served rest) l₂
              ∙ (ap (λ i. switched s ++ i) e₂
                  ∙ (sym (append_assoc (switched s) l₁ ys₂)
                      ∙ (ap (λ i. i ++ ys₂) e₁ ∙ append_assoc l ys₁ ys₂))),
          h₂,
        ),
      ),
    )
