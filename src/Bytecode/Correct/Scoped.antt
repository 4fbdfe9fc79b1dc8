-- ===== src/Bytecode/Correct/Scoped.antt =====
-- A program that passes the checks of `Scope` is one that its variable table compiles.
use mathlib.Core.Bool.{and-eq-true_iff}
use systems_programming_proj.Prelude.{◌≡◌, true, List, arith, bytes_eq_refl, ltb→lt}
use systems_programming_proj.Bytecode.Ast.{
  Name, Expr, num, ident, binary, Stmt, assign, print, while_loop, if_then, Block, done, next,
}
use systems_programming_proj.Bytecode.Scope.{
  member, nonempty, scoped_expr, scope_stmt, scope_block, scoped_stmt, scoped_block, small_expr,
  small_stmt, small_block,
}
use systems_programming_proj.Bytecode.Codegen.Extension.{Covers}
use systems_programming_proj.Bytecode.Correct.Expressions.{Compiles}
use systems_programming_proj.Bytecode.Correct.Statements.{CompilesStmt, CompilesBlock}

mutual
  unfolding scope_stmt member

  scope_stmt-grows :
      (s : Stmt) (x : Name) (scope : List Name)
      → member x scope ≡ true
      → member x (scope_stmt s scope) ≡ true
  scope_stmt-grows (assign y e) x scope h = ground arith
  scope_stmt-grows (print e) x scope h = h
  scope_stmt-grows (if_then c b) x scope h = scope_block-grows b x scope h
  scope_stmt-grows (while_loop c b) x scope h = scope_block-grows b x scope h

  scope_block-grows :
      (b : Block) (x : Name) (scope : List Name)
      → member x scope ≡ true
      → member x (scope_block b scope) ≡ true
  scope_block-grows done x scope h = h
  scope_block-grows (next s b) x scope h =
      scope_block-grows b x (scope_stmt s scope) (scope_stmt-grows s x scope h)

module _ (names : List Name) where
  Compiles-scoped :
      (e : Expr) (scope : List Name)
      → Covers scope names
      → scoped_expr scope e ≡ true
      → small_expr e ≡ true
      → Compiles names e
  unfolding scoped_expr small_expr
  Compiles-scoped (num n) scope c h s = ltb→lt n 256 s
  Compiles-scoped (ident x) scope c h s = (c x h).1
  Compiles-scoped (binary op l r) scope c h s =
      let (hl, hr) = (and-eq-true_iff (scoped_expr scope l) (scoped_expr scope r)).0 h in
      let (sl, sr) = (and-eq-true_iff (small_expr l) (small_expr r)).0 s in
      (Compiles-scoped l scope c hl sl, Compiles-scoped r scope c hr sr)

  mutual
    unfolding scoped_stmt scope_stmt small_stmt CompilesStmt member

    CompilesStmt-scoped :
        (s : Stmt) (scope : List Name)
        → Covers (scope_stmt s scope) names
        → scoped_stmt s scope ≡ true
        → small_stmt s ≡ true
        → CompilesStmt names s
    CompilesStmt-scoped (assign x e) scope c h s =
        let (he, nx) = (and-eq-true_iff (scoped_expr scope e) (nonempty x)).0 h in
        (
          (c x (ground (arith, bytes_eq_refl x))).1,
          Compiles-scoped e scope (λ y hy. c y (ground arith)) he s,
        )
    CompilesStmt-scoped (print e) scope c h s = Compiles-scoped e scope c h s
    CompilesStmt-scoped (if_then cond b) scope c h s =
        let (hc, hb) = (and-eq-true_iff (scoped_expr scope cond) (scoped_block b scope)).0 h in
        let (sc, sb) = (and-eq-true_iff (small_expr cond) (small_block b)).0 s in
        (
          Compiles-scoped cond scope (λ y hy. c y (scope_block-grows b y scope hy)) hc sc,
          CompilesBlock-scoped b scope c hb sb,
        )
    CompilesStmt-scoped (while_loop cond b) scope c h s =
        let (hc, hb) = (and-eq-true_iff (scoped_expr scope cond) (scoped_block b scope)).0 h in
        let (sc, sb) = (and-eq-true_iff (small_expr cond) (small_block b)).0 s in
        (
          Compiles-scoped cond scope (λ y hy. c y (scope_block-grows b y scope hy)) hc sc,
          CompilesBlock-scoped b scope c hb sb,
        )

    CompilesBlock-scoped :
        (b : Block) (scope : List Name)
        → Covers (scope_block b scope) names
        → scoped_block b scope ≡ true
        → small_block b ≡ true
        → CompilesBlock names b
    CompilesBlock-scoped done scope c h s = tt
    CompilesBlock-scoped (next st b) scope c h s =
        let (hs, hb) =
          (and-eq-true_iff (scoped_stmt st scope) (scoped_block b (scope_stmt st scope))).0 h in
        let (ss, sb) = (and-eq-true_iff (small_stmt st) (small_block b)).0 s in
        (
          CompilesStmt-scoped st scope
              (λ y hy. c y (scope_block-grows b y (scope_stmt st scope) hy)) hs ss,
          CompilesBlock-scoped b (scope_stmt st scope) c hb sb,
        )

  pub CompilesBlock-of_scoped :
      (b : Block) (scope : List Name)
      → Covers (scope_block b scope) names
      → scoped_block b scope ≡ true
      → small_block b ≡ true
      → CompilesBlock names b
  CompilesBlock-of_scoped b scope = CompilesBlock-scoped b scope
