-- ===== src/Bytecode.antt =====
-- bytecode-vm/: the bytecode compiler (compiler.c) and the virtual machine (vm.c).
pub mod Parser
pub mod Lexer
pub mod OpCode
pub mod Vm
pub mod Machine
pub mod Refine
pub mod Ast
pub mod Scope
pub mod Semantics
pub mod Codegen
pub mod Correct
pub mod Main
