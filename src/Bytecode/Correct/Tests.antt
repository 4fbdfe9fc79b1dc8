-- ===== src/Bytecode/Correct/Tests.antt =====
-- The program in `main` of bytecode-vm/compiler.c, and the theorems at it.
use systems_programming_proj.Prelude.{◌≡◌, refl, [], ◌∷◌, ◌++◌, true, arith, bytes_eq}
use systems_programming_proj.Prelude.Int.{pos}
use systems_programming_proj.Bytecode.OpCode.{code_of}
use systems_programming_proj.Bytecode.Vm
use systems_programming_proj.Bytecode.Vm.{Vm, int_result}
use systems_programming_proj.Bytecode.Machine
use systems_programming_proj.Bytecode.Ast.{
  Name, sub, gt, num, ident, binary, assign, print, while_loop, Block, done, next,
}
use systems_programming_proj.Bytecode.Scope.{
  member, scoped_expr, scope_stmt, small_expr, scope_block, scoped_block, small_block,
}
use systems_programming_proj.Bytecode.Semantics.{store, exec_block}
use systems_programming_proj.Bytecode.Codegen.{
  emit, find, op_code, load_slot, store_slot, walk_expr, patch, walk, generate_byte, walk_block,
  initial,
}
use systems_programming_proj.Bytecode.Codegen.Layout.{size_expr, size_block, code_block}
use systems_programming_proj.Bytecode.Codegen.Keeps.{walk_block-Grown, initial-IsTable}
use systems_programming_proj.Bytecode.Codegen.Extension.{Grown}
use systems_programming_proj.Bytecode.Codegen.Backpatch.{slot, final_names, generate_byte-code}
use systems_programming_proj.Bytecode.Refine.Step.{values}
use systems_programming_proj.Bytecode.Refine.Run.{SameOutcome, vm_run-refines}
use systems_programming_proj.Bytecode.Correct.Program.{
  run_program, Delivers, all_zero, generate_byte-Delivers,
}
use systems_programming_proj.Bytecode.Correct.Literals.{print_literal, print_literal_value}

abbrev x : Name
x = b'x' ∷ []

-- x = 3 ; while x > 0 { print x  x = x - 1 }
abbrev countdown : Block
countdown = next (assign x (num 3)) (
    next
      (while_loop (binary gt (ident x) (num 0))
        (next (print (ident x)) (next (assign x (binary sub (ident x) (num 1))) done)))
      done)

countdown_bytes :
    generate_byte countdown
    ≡ 1 ∷ 3 ∷ 14 ∷ 0 ∷ 13 ∷ 0 ∷ 1 ∷ 0 ∷ 10 ∷ 12 ∷ 23 ∷ 13 ∷ 0 ∷ 7 ∷ 13 ∷ 0 ∷ 1 ∷ 1 ∷ 4 ∷ 14 ∷ 0 ∷ 11
      ∷ 4 ∷ 0xff ∷ []
unfolding generate_byte walk walk_expr emit patch find load_slot store_slot code_of op_code bytes_eq
countdown_bytes = refl

-- Memory before `vm_init`.
abbrev blank : Vm
blank = record {
  code = [];
  ip = 0;
  stack = [];
  sp = 0;
  globals = [];
  cstack = [];
  csp = 0;
  running = true;
  out = [];
}

countdown_scoped : scoped_block countdown [] ≡ true
unfolding scoped_block scoped_expr member bytes_eq scope_stmt
countdown_scoped = refl

countdown_small : small_block countdown ≡ true
unfolding small_block small_expr
countdown_small = refl

generate_byte-Delivers_example :
    Delivers
      (generate_byte countdown)
      (final_names countdown)
      blank
      (exec_block 20 countdown (store all_zero []))
unfolding size_block size_expr
generate_byte-Delivers_example =
    generate_byte-Delivers 20 countdown blank refl countdown_scoped countdown_small (omega arith)

generate_byte-code_example :
    generate_byte countdown ≡ code_block (slot (final_names countdown)) 0 countdown ++ 0xff ∷ []
unfolding size_block size_expr
generate_byte-code_example = generate_byte-code countdown countdown_scoped (omega arith)

vm_run-refines_example :
    SameOutcome
      (generate_byte countdown)
      (run_program 50 (generate_byte countdown) blank)
      (Machine.run 50 (generate_byte countdown) Machine.start)
vm_run-refines_example = vm_run-refines 50 (generate_byte countdown) blank refl

walk_block-Grown_example : Grown (scope_block countdown []) initial (walk_block countdown initial)
unfolding generate_byte walk walk_expr emit patch find load_slot store_slot code_of op_code bytes_eq
    member
walk_block-Grown_example =
    walk_block-Grown countdown [] initial initial-IsTable (λ y h. cc)
      (unfold scoped_block scoped_expr member bytes_eq scope_stmt in countdown_scoped) (omega arith)

print_literal_value_example :
    (vm' : Vm) × (run_program 3 (generate_byte (print_literal 300)) blank ≡ Vm.halted vm')
    × (values vm'.out ≡ pos 44 ∷ [])
print_literal_value_example = print_literal_value 300 blank refl
