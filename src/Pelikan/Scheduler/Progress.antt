-- ===== src/Pelikan/Scheduler/Progress.antt =====
-- Each ready task gets the processor in its turn, in the loop of pelikanOS/src/scheduler.c.
use systems_programming_proj.Prelude.{ℕ, List, [], ◌∷◌, ◌++◌, ◌≡◌}
use systems_programming_proj.Pelikan.Scheduler.Waiting.{Ready}
use systems_programming_proj.Pelikan.Scheduler.Steps.{System, Steps}
use systems_programming_proj.Pelikan.Scheduler.Fifo.{served}

abbrev tail_of : List ℕ → List ℕ
tail_of [] = []
tail_of (x ∷ l) = l

-- A run from a state that serves the tasks of a list and no others.
abbrev Serves : System → List ℕ → Type 0
Serves b l = (c : System) × ((next : Steps b c) × (served next ≡ l))

-- The task waits behind some tasks, and ticks of the timer alone bring it to the processor.
pub record StillWaits (t : ℕ) (left : List ℕ) (b : System) : Type 0 where
  pub later : List ℕ
  pub queue : Ready b.kernel (left ++ t ∷ later)
  pub next : Serves b (left ++ t ∷ [])
