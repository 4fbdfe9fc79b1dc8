-- ===== src/Bytecode/Correct/Runs.antt =====
-- From sequences of steps to runs with enough fuel.
use systems_programming_proj.Prelude.{ℕ, suc, ◌≡◌, List, false}
use systems_programming_proj.Prelude.Int.{ℤ}
use systems_programming_proj.Bytecode.Vm.{Error}
use systems_programming_proj.Bytecode.Machine.{Machine, halted, failed, run}
use systems_programming_proj.Bytecode.Correct.Reach.{at, dead, Goes, here, more, fail}

module _ {code : List ℕ} where
  pub Goes-halted :
      {m m' : Machine}
      → Goes code m (at m')
      → m'.running ≡ false
      → (k : ℕ) × (run k code m ≡ halted m')
  unfolding run
  Goes-halted here stop = (0, simp stop)
  Goes-halted (more going s rest) stop =
      let (k, e) = Goes-halted rest stop in (suc k, simp (going, s) e)

  pub Goes-failed :
      {m : Machine} {e : Error} {out : List ℤ}
      → Goes code m (dead e out)
      → (k : ℕ) × (run k code m ≡ failed e out)
  unfolding run
  Goes-failed (more going s rest) = let (k, e) = Goes-failed rest in (suc k, simp (going, s) e)
  Goes-failed (fail going s) = (1, simp (going, s))
