-- ===== src/Bytecode/Correct/Literals.antt =====
-- A literal that does not fit the operand byte of OP_PUSH (bytecode-vm/compiler.c, `walk`).
use systems_programming_proj.Prelude.{ℕ, ◌%◌, ◌≡◌, refl, List, [], ◌∷◌, false}
use systems_programming_proj.Prelude.Int.{pos}
use systems_programming_proj.Bytecode.OpCode.{code_of, decode}
use systems_programming_proj.Bytecode.Vm
use systems_programming_proj.Bytecode.Vm.{Vm}
use systems_programming_proj.Bytecode.Machine
use systems_programming_proj.Bytecode.Machine.{
  Machine, start, put, take_top, operand, push_value, perform, perform_byte, step, run,
}
use systems_programming_proj.Bytecode.Ast.{num, print, Block, done, next}
use systems_programming_proj.Bytecode.Codegen.{emit, walk_expr, walk, generate_byte}
use systems_programming_proj.Bytecode.Refine.Step.{values}
use systems_programming_proj.Bytecode.Refine.Run.{SameOutcome, both_halted, vm_run-refines}
use systems_programming_proj.Bytecode.Correct.Program.{run_program}

-- `print n`
abbrev pub print_literal : ℕ → Block
print_literal n = next (print (num n)) done

abbrev ended : ℕ → Machine
ended n = record {
  ip = 4;
  stack = [];
  globals = start.globals;
  calls = [];
  running = false;
  out = pos (n % 256) ∷ [];
}

machine_run : (n : ℕ) → run 3 (generate_byte (print_literal n)) start ≡ Machine.halted (ended n)
unfolding run step operand perform_byte perform push_value put take_top decode code_of emit
    walk_expr walk generate_byte
machine_run n = refl

printed :
    {code : List ℕ} {m : Machine} {o : Vm.Outcome}
    → SameOutcome code o (Machine.halted m)
    → (vm' : Vm) × (o ≡ Vm.halted vm') × (values vm'.out ≡ m.out)
printed (both_halted {vm = vm'} v) = (vm', refl, v.out)

-- The program `print n` halts within three rounds, having printed the one value n modulo 256: a literal
-- above 255 is cut to its low byte.
pub print_literal_value :
    (n : ℕ) (vm : Vm)
    → vm.out ≡ []
    → (vm' : Vm) × (run_program 3 (generate_byte (print_literal n)) vm ≡ Vm.halted vm')
      × (values vm'.out ≡ pos (n % 256) ∷ [])
print_literal_value n vm quiet =
    printed (rw machine_run at (vm_run-refines 3 (generate_byte (print_literal n)) vm quiet))
