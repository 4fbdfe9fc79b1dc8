-- ===== src/Bytecode/Ast.antt =====
-- `NodeType` and `Node` of bytecode-vm/compiler.c: the trees that its parser builds. A node that
-- holds an expression and one that holds a statement are two types here, since the parser never
-- puts one in the place of the other; a node's `body` array is a `Block`.
use systems_programming_proj.Prelude.{ℕ, List}

-- The characters of `name`.
abbrev pub Name : Type 0
Name = List ℕ

-- NODE_ADD to NODE_EQEQ, less NODE_EQ, which nothing builds.
pub data BinOp : Type 0 where
  add sub mul div gt lt eqeq : BinOp

pub data Expr : Type 0 where
  num : ℕ → Expr
  ident : Name → Expr
  binary : BinOp → Expr → Expr → Expr

mutual
  pub data Stmt : Type 0 where
    assign : Name → Expr → Stmt
    print : Expr → Stmt
    while_loop : Expr → Block → Stmt
    if_then : Expr → Block → Stmt

  pub data Block : Type 0 where
    done : Block
    next : Stmt → Block → Block
