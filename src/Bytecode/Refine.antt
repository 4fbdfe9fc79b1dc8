-- ===== src/Bytecode/Refine.antt =====
-- The arrays and counters of `VM` (bytecode-vm/vm.c) implement the lists of `Machine`: each
-- instruction, each round of `vm_run`, and each run.
pub mod Stacks
pub mod Step
pub mod Execute
pub mod Run
