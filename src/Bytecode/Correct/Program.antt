-- ===== src/Bytecode/Correct/Program.antt =====
-- Whole programs: `generate_byte` (bytecode-vm/compiler.c), then `vm_init` and `vm_run`
-- (bytecode-vm/vm.c), against the meaning of the program.
use systems_programming_proj.Prelude.{
  ℕ, ◌<◌, ◌≡◌, refl, ◌∙◌, some, List, [], ◌∷◌, ◌++◌, true, arith, length-replicate,
  get_or-replicate,
}
use systems_programming_proj.Prelude.Int.{ℤ, pos}
use systems_programming_proj.Bytecode.OpCode.{code_of}
use systems_programming_proj.Bytecode.OpCode
use systems_programming_proj.Bytecode.Vm
use systems_programming_proj.Bytecode.Vm.{Error, Vm, size, vm_init, vm_run}
use systems_programming_proj.Bytecode.Machine
use systems_programming_proj.Bytecode.Machine.{Machine, start}
use systems_programming_proj.Bytecode.Ast.{Name, Block}
use systems_programming_proj.Bytecode.Scope.{scoped_block, small_block}
use systems_programming_proj.Bytecode.Semantics.{
  Env, Store, store, Final, finished, stopped, out_of_fuel, exec_block,
}
use systems_programming_proj.Bytecode.Codegen.{generate_byte}
use systems_programming_proj.Bytecode.Codegen.Layout.{size_block, code_block, length-code_block}
use systems_programming_proj.Bytecode.Codegen.Backpatch.{
  slot, final_names, initial-Grown, generate_byte-code,
}
use systems_programming_proj.Bytecode.Refine.Step.{values}
use systems_programming_proj.Bytecode.Refine.Run.{
  SameOutcome, both_halted, both_failed, vm_run-refines,
}
use systems_programming_proj.Bytecode.Correct.Reach.{
  At, At-append, At-whole, here, more, Goes-trans,
}
use systems_programming_proj.Bytecode.Correct.Instructions.{step-halt}
use systems_programming_proj.Bytecode.Correct.Expressions.{Agrees}
use systems_programming_proj.Bytecode.Correct.Statements.{
  Lands, lands, dies, lost, exec_block-Lands,
}
use systems_programming_proj.Bytecode.Correct.Runs.{Goes-halted, Goes-failed}
use systems_programming_proj.Bytecode.Correct.Scoped.{CompilesBlock-of_scoped}

-- The machine before `vm_init`, and its run.
abbrev pub run_program : ℕ → List ℕ → Vm → Vm.Outcome
run_program fuel code vm = vm_run fuel (vm_init (some code) vm)

-- With enough rounds the machine ends as the program does: it halts with the program's output and
-- the program's variables in their slots, or stops with the program's error after the program's
-- output up to there. Nothing is said of a program that has not ended.
pub data Delivers (code : List ℕ) (names : List Name) (vm : Vm) : Final → Type 0 where
  halts :
      {st : Store} (fuel : ℕ) (vm' : Vm)
      → run_program fuel code vm ≡ Vm.halted vm'
      → values vm'.out ≡ st.out
      → Agrees names vm'.globals st.env
      → Delivers code names vm (finished st)
  fails :
      {e : Error} {out : List ℤ} (fuel : ℕ) (vm' : Vm)
      → run_program fuel code vm ≡ Vm.failed e vm'
      → values vm'.out ≡ out
      → Delivers code names vm (stopped e out)
  unfinished : Delivers code names vm out_of_fuel

-- The states before the first statement.
abbrev pub all_zero : Env
all_zero x = pos 0

initial-Agrees : (names : List Name) → Agrees names start.globals all_zero
initial-Agrees names = record {
  room = length-replicate size (pos 0);
  values = λ x i h. get_or-replicate size i (pos 0);
}

halted-Delivers :
    {code : List ℕ} {names : List Name} {vm : Vm} {st : Store} {m : Machine} (fuel : ℕ)
    {o : Vm.Outcome}
    → SameOutcome code o (Machine.halted m)
    → run_program fuel code vm ≡ o
    → m.out ≡ st.out
    → Agrees names m.globals st.env
    → Delivers code names vm (finished st)
halted-Delivers fuel (both_halted {vm = vm'} v) e out ag =
    halts fuel vm' e (v.out ∙ out) (rw v.globals ag)

failed-Delivers :
    {code : List ℕ} {names : List Name} {vm : Vm} {e : Error} {out : List ℤ} (fuel : ℕ)
    {o : Vm.Outcome}
    → SameOutcome code o (Machine.failed e out)
    → run_program fuel code vm ≡ o
    → Delivers code names vm (stopped e out)
failed-Delivers fuel (both_failed {vm = vm'} out) e = fails fuel vm' e out

module _ {code : List ℕ} {names : List Name} {q : ℕ} (vm : Vm) (quiet : vm.out ≡ []) where
  deliver :
      {o : Final}
      → At code q (code_of OpCode.halt ∷ [])
      → Lands code names q start o
      → Delivers code names vm o
  deliver h (lands {st} g a ag) =
      let stop = more refl (step-halt code q [] g st.out h) here in
      let (k, e) = Goes-halted (Goes-trans a stop) refl in
      halted-Delivers k (rw e at (vm_run-refines k code vm quiet)) refl refl ag
  deliver h (dies {e} {out} a) =
      let (k, e') = Goes-failed a in
      failed-Delivers k (rw e' at (vm_run-refines k code vm quiet)) refl
  deliver h lost = unfinished

-- The compiler is correct: for every program whose literals fit a byte, whose variables are
-- assigned further up in the text, and whose code with its OP_HALT takes at most 256 bytes, the
-- machine, started on the bytes that `generate_byte` gives, ends as the program does. If the program finishes, the
-- machine halts with the same values printed and each variable in its slot; if the program stops
-- with an error, the machine stops with that error after the same values. `vm` is the memory that
-- the machine finds, with nothing printed yet.
pub generate_byte-Delivers :
    (fuel : ℕ) (b : Block) (vm : Vm)
    → vm.out ≡ []
    → scoped_block b [] ≡ true
    → small_block b ≡ true
    → size_block b < 256
    → Delivers (generate_byte b) (final_names b) vm (exec_block fuel b (store all_zero []))
unfolding code_of
generate_byte-Delivers fuel b vm quiet scoped small short =
    let grown = initial-Grown b scoped (omega arith) in
    let names = final_names b in
    let body = code_block (slot names) 0 b in
    let (front, back) =
      At-append (body ++ 0xff ∷ []) 0 body (0xff ∷ []) (At-whole (body ++ 0xff ∷ [])) in
    rw (generate_byte-code b scoped (omega arith)) (
      deliver vm quiet (rw length-code_block at back) (
        exec_block-Lands (body ++ 0xff ∷ []) names grown.table.room fuel b 0 start.globals
          (store all_zero []) (initial-Agrees names)
          (CompilesBlock-of_scoped names b [] grown.covers scoped small) front (omega arith)))
