-- ===== src/Bytecode/Codegen/Keeps.antt =====
-- The variable table of bytecode-vm/compiler.c as `walk` goes over a program: its unused entries
-- stay empty, what it resolves it resolves to the same slot ever after, and it resolves every
-- variable that an assignment further up introduced.
use mathlib.Core.Bool.{and-eq-true_iff}
use systems_programming_proj.Prelude.{
  ℕ, ◌≤◌, ◌≡◌, refl, true, List, [], arith, length, length-replicate, get_or-replicate,
}
use systems_programming_proj.Bytecode.OpCode.{code_of}
use systems_programming_proj.Bytecode.OpCode
use systems_programming_proj.Bytecode.Ast.{
  Name, Expr, Stmt, assign, print, while_loop, if_then, Block, done, next,
}
use systems_programming_proj.Bytecode.Scope.{
  scoped_expr, scope_stmt, scope_block, scoped_stmt, scoped_block,
}
use systems_programming_proj.Bytecode.Codegen.{Gen, emit, walk_expr, walk, walk_block, initial}
use systems_programming_proj.Bytecode.Codegen.Grow.{
  emit-SameTable, walk_expr-SameTable, lengths, length-walk_block,
}
use systems_programming_proj.Bytecode.Codegen.Extension.{
  IsTable, Covers, Grown, SameTable-Grown, Grown-trans, store_slot-Grown, patch-Grown,
}

pub emit-Grown :
    {scope : List Name} (b : ℕ) {g g' : Gen} → Grown scope g g' → Grown scope g (emit b g')
emit-Grown b {g' = g'} h = Grown-trans h (
    SameTable-Grown (emit-SameTable b (record { names = refl; count = refl; longer = omega arith }))
      h.table h.covers)

pub walk_expr-Grown :
    {scope : List Name} (e : Expr) {g : Gen}
    → IsTable g
    → Covers scope g.names
    → Grown scope g (walk_expr e g)
walk_expr-Grown e t c = SameTable-Grown (walk_expr-SameTable e _) t c

-- Through the condition of an `if` or a `while`, its jump and the placeholder.
pub branch-Grown :
    {scope : List Name} (cond : Expr) {g : Gen}
    → IsTable g
    → Covers scope g.names
    → Grown scope g (emit 0 (emit (code_of OpCode.jmp_if_false) (walk_expr cond g)))
branch-Grown cond t c =
    emit-Grown 0 (emit-Grown (code_of OpCode.jmp_if_false) (walk_expr-Grown cond t c))

mutual
  unfolding walk scope_stmt scoped_stmt

  walk-Grown_from :
      (s : Stmt) (scope : List Name) (g : Gen)
      → IsTable g
      → Covers scope g.names
      → scoped_stmt s scope ≡ true
      → length (walk s g).bytes ≤ 256
      → Grown (scope_stmt s scope) g (walk s g)
  walk-Grown_from (assign x e) scope g t c h short =
      let grown = emit-Grown (code_of OpCode.store) (walk_expr-Grown e t c) in
      let few = grown.table.few in
      Grown-trans grown
        (store_slot-Grown x grown.table grown.covers ((and-eq-true_iff _ _).0 h).1 (omega lengths))
  walk-Grown_from (print e) scope g t c h short =
      emit-Grown (code_of OpCode.print) (walk_expr-Grown e t c)
  walk-Grown_from (if_then cond b) scope g t c h short =
      let hb = ((and-eq-true_iff (scoped_expr scope cond) (scoped_block b scope)).0 h).1 in
      let first = branch-Grown cond t c in
      let body = walk_block-Grown_from b scope _ first.table first.covers hb (omega lengths) in
      patch-Grown _ (Grown-trans first body)
  walk-Grown_from (while_loop cond b) scope g t c h short =
      let hb = ((and-eq-true_iff (scoped_expr scope cond) (scoped_block b scope)).0 h).1 in
      let first = branch-Grown cond t c in
      let body = walk_block-Grown_from b scope _ first.table first.covers hb (omega lengths) in
      patch-Grown _
        (emit-Grown (length g.bytes) (emit-Grown (code_of OpCode.jmp) (Grown-trans first body)))

  walk_block-Grown_from :
      (b : Block) (scope : List Name) (g : Gen)
      → IsTable g
      → Covers scope g.names
      → scoped_block b scope ≡ true
      → length (walk_block b g).bytes ≤ 256
      → Grown (scope_block b scope) g (walk_block b g)
  walk_block-Grown_from done scope g t c h short = record {
    table = t;
    covers = c;
    extends = λ y i n e. e;
  }
  walk_block-Grown_from (next s b) scope g t c h short =
      let (hs, hb) = (and-eq-true_iff _ _).0 h in
      let first =
        walk-Grown_from s scope g t c hs (omega (arith, length-walk_block b (walk s g))) in
      Grown-trans first
        (walk_block-Grown_from b (scope_stmt s scope) (walk s g) first.table first.covers hb short)

-- While the code stays within 256 bytes, a statement whose variables are in scope keeps the table
-- well formed and every slot in place, and afterwards the table resolves every variable in scope.
pub walk-Grown :
    (s : Stmt) (scope : List Name) (g : Gen)
    → IsTable g
    → Covers scope g.names
    → scoped_stmt s scope ≡ true
    → length (walk s g).bytes ≤ 256
    → Grown (scope_stmt s scope) g (walk s g)
walk-Grown s scope g = walk-Grown_from s scope g

-- While the code stays within 256 bytes, a block whose variables are in scope keeps the table well
-- formed (256 names, empty from the counter on, no more names than bytes), keeps every slot in
-- place that a non-empty name had, and leaves a table that resolves every variable then in scope.
pub walk_block-Grown :
    (b : Block) (scope : List Name) (g : Gen)
    → IsTable g
    → Covers scope g.names
    → scoped_block b scope ≡ true
    → length (walk_block b g).bytes ≤ 256
    → Grown (scope_block b scope) g (walk_block b g)
walk_block-Grown b scope g = walk_block-Grown_from b scope g

pub initial-IsTable : IsTable initial
initial-IsTable = record {
  room = length-replicate {A = Name} 256 [];
  unused = λ k h. get_or-replicate {A = Name} 256 k [];
  few = omega arith;
}
