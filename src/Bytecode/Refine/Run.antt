-- ===== src/Bytecode/Refine/Run.antt =====
-- `vm_init` and the loop of `vm_run` (bytecode-vm/vm.c), seen on `Machine`.
use mathlib.Core.List.{append-nil}
use systems_programming_proj.Prelude.{
  ℕ, zero, suc, ◌+◌, ◌≡◌, refl, ◌∙◌, inl, inr, some, List, [], ◌∷◌, arith, Bool-cases, Option-cases,
  length-replicate, replicate, ◌++◌,
}
use systems_programming_proj.Prelude.Int.{ℤ, pos}
use systems_programming_proj.Bytecode.OpCode.{decode}
use systems_programming_proj.Bytecode.Vm.{
  Error, Result, ok, err, Vm, running_op, size, vm_init, dispatch, step, Outcome, vm_run,
}
use systems_programming_proj.Bytecode.Machine
use systems_programming_proj.Bytecode.Machine.{Machine, start, perform_byte}
use systems_programming_proj.Bytecode.Refine.Stacks.{Holds, oks, errs, Agree-bind}
use systems_programming_proj.Bytecode.Refine.Step.{values, values-append, Views, fetch-Agree}
use systems_programming_proj.Bytecode.Refine.Execute.{Agrees, execute-Agree}

-- Both runs end in the same way, with the same values printed.
pub data SameOutcome (code : List ℕ) : Outcome → Machine.Outcome → Type 0 where
  both_halted :
      {vm : Vm} {m : Machine}
      → Views code vm m
      → SameOutcome code (Outcome.halted vm) (Machine.halted m)
  both_failed :
      {e : Error} {vm : Vm} {out : List ℤ}
      → values vm.out ≡ out
      → SameOutcome code (Outcome.failed e vm) (Machine.failed e out)
  both_running : SameOutcome code Outcome.out_of_fuel Machine.out_of_fuel

traced :
    {code : List ℕ} {vm : Vm} {m : Machine} (b : ℕ)
    → Views code vm m
    → Views code (record vm { out = vm.out ++ running_op b ∷ [] }) m
unfolding values
traced {vm} {m} b v = record {
  code = v.code;
  ip = v.ip;
  stack = v.stack;
  globals = v.globals;
  calls = v.calls;
  running = v.running;
  out = values-append vm.out (running_op b ∷ []) ∙ append-nil _ ∙ v.out;
}

module _ {code : List ℕ} where
  dispatch-Agree :
      {vm : Vm} (m : Machine) (b : ℕ)
      → Views code vm (record m { ip = m.ip + 1 })
      → Agrees code (dispatch b vm) (perform_byte code b m)
  unfolding dispatch perform_byte
  dispatch-Agree m b v = elim (Option-cases (decode b)) [
    | inl e ↦ rw (e, dispatch, perform_byte) errs
    | inr (op, e) ↦ rw (e, dispatch, perform_byte) (execute-Agree op v)
  ]

  pub step-Agree :
      {vm : Vm} {m : Machine} → Views code vm m → Agrees code (step vm) (Machine.step code m)
  unfolding step Machine.step
  step-Agree {m} v = Agree-bind (fetch-Agree v) λ r b (e, w). rw e (dispatch-Agree m b (traced b w))

  round-SameOutcome :
      (fuel : ℕ) {vm : Vm} {m : Machine} {r : Result Vm} {r' : Result Machine}
      → Views code vm m
      → Agrees code r r'
      → ((vm' : Vm) (m' : Machine)
          → Views code vm' m'
          → SameOutcome code (vm_run fuel vm') (Machine.run fuel code m'))
      → SameOutcome code
          (elim r [ ok vm' ↦ vm_run fuel vm' | err e ↦ Outcome.failed e vm ])
          (elim r' [ ok m' ↦ Machine.run fuel code m' | err e ↦ Machine.failed e m.out ])
  round-SameOutcome fuel v (oks h) k = k _ _ h
  round-SameOutcome fuel v errs k = both_failed v.out

  pub run_refines :
      (fuel : ℕ) {vm : Vm} {m : Machine}
      → Views code vm m
      → SameOutcome code (vm_run fuel vm) (Machine.run fuel code m)
  unfolding vm_run Machine.run
  run_refines zero {vm} {m} v = elim (Bool-cases m.running) [
    | inl e ↦ simp (v.running, e) both_running
    | inr e ↦ simp (v.running, e) (both_halted v)
  ]
  run_refines (suc fuel) {vm} {m} v = elim (Bool-cases m.running) [
    | inl e ↦
        simp (v.running, e) (round-SameOutcome fuel v (step-Agree v) λ vm' m' w. run_refines fuel w)
    | inr e ↦ simp (v.running, e) (both_halted v)
  ]

init-Views : (code : List ℕ) (vm : Vm) → vm.out ≡ [] → Views code (vm_init (some code) vm) start
unfolding vm_init values
init-Views code vm e = record {
  code = refl;
  ip = refl;
  stack = empty;
  globals = refl;
  calls = empty;
  running = refl;
  out = rw e;
}
  where
    empty : Holds (replicate size (pos 0)) 0 []
    empty = record {
      room = length-replicate size (pos 0);
      count = refl;
      small = omega arith;
      cells = tt;
    }

-- A run of `vm_run` behind `vm_init`, over the arrays of the machine, ends as the run of the
-- bytecode on the bounded lists does, after the same number of rounds and with the same values printed; whatever
-- the code is and whatever the machine held before.
pub vm_run-refines :
    (fuel : ℕ) (code : List ℕ) (vm : Vm)
    → vm.out ≡ []
    → SameOutcome code (vm_run fuel (vm_init (some code) vm)) (Machine.run fuel code start)
vm_run-refines fuel code vm e = run_refines fuel (init-Views code vm e)
