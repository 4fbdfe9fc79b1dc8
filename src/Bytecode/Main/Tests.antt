-- ===== src/Bytecode/Main/Tests.antt =====
-- The pipeline of bytecode-vm/compiler.c at a concrete program.
use systems_programming_proj.Prelude.{ℕ, [], ◌∷◌, ◌≡◌, refl, true, arith, bytes_eq}
use systems_programming_proj.Prelude.Int.{pos}
use systems_programming_proj.Bytecode.Ast.{num, ident, assign, print, Block, done, next}
use systems_programming_proj.Bytecode.Vm.{Vm, halted}
use systems_programming_proj.Bytecode.Scope.{
  member, scoped_expr, scope_stmt, small_expr, scoped_block, small_block,
}
use systems_programming_proj.Bytecode.Semantics.{
  Store, store, bind_name, finished, exec_block, exec_stmt, eval,
}
use systems_programming_proj.Bytecode.Codegen.Layout.{size_expr, size_block}
use systems_programming_proj.Bytecode.Correct.Program.{all_zero}
use systems_programming_proj.Bytecode.Parser.{found}
use systems_programming_proj.Bytecode.Parser.Printer.{print_program, expr_fuel}
use systems_programming_proj.Bytecode.Parser.Programs.{fits_block, block_fuel}
use systems_programming_proj.Bytecode.Main.{run_lexed, print_tokens, run_lexed-values}
use systems_programming_proj.Bytecode.Refine.Step.{values}

-- x = 7  print x
abbrev program : Block
program = next (assign (b'x' ∷ []) (num 7)) (next (print (ident (b'x' ∷ []))) done)

abbrev blank : Vm
blank = record {
  code = [];
  ip = 0;
  stack = [];
  sp = 0;
  globals = [];
  cstack = [];
  csp = 0;
  running = true;
  out = [];
}

abbrev ended : Store
ended = store (bind_name (b'x' ∷ []) (pos 7) all_zero) (pos 7 ∷ [])

program_scoped : scoped_block program [] ≡ true
unfolding scoped_block scoped_expr member bytes_eq scope_stmt
program_scoped = refl

program_small : small_block program ≡ true
unfolding small_block small_expr
program_small = refl

program_size : size_block program ≡ 7
unfolding size_block size_expr
program_size = refl

program_fits : fits_block program ≡ true
unfolding fits_block
program_fits = refl

program_fuel : block_fuel program ≡ 15
unfolding block_fuel expr_fuel
program_fuel = refl

program_ends : exec_block 10 program (store all_zero []) ≡ finished ended
unfolding exec_block exec_stmt eval bytes_eq
program_ends = refl

run_lexed-values_example :
    (rounds : ℕ) × ((vm' : Vm) × ((run_lexed 60 rounds blank (found (print_program program))
          ≡ found (print_tokens (print_program program), halted vm'))
        × (values vm'.out ≡ pos 7 ∷ [])))
run_lexed-values_example =
    run_lexed-values 10 60 program ended blank refl program_scoped program_small
      (omega (arith, program_size)) program_fits (omega (arith, program_fuel)) program_ends
