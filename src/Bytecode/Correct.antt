-- ===== src/Bytecode/Correct.antt =====
-- The compiler of bytecode-vm/compiler.c against the machine of bytecode-vm/vm.c.
pub mod Reach
pub mod Instructions
pub mod Expressions
pub mod Statements
pub mod Runs
pub mod Scoped
pub mod Program
mod Tests
pub mod Literals
