-- ===== src/Bytecode/Scope.antt =====
-- When a program of bytecode-vm/compiler.c uses only variables that an assignment further up in
-- the text introduces, which is what the variable table of `walk` can resolve.
use systems_programming_proj.Prelude.{Bool, true, false, ◌&&◌, ◌||◌, List, [], ◌∷◌, bytes_eq, ltb}
use systems_programming_proj.Bytecode.Ast.{
  Name, Expr, num, ident, binary, Stmt, assign, print, while_loop, if_then, Block, done, next,
}

unfoldable pub member : Name → List Name → Bool
member x [] = false
member x (y ∷ ys) = bytes_eq y x || member x ys

abbrev pub nonempty : Name → Bool
nonempty [] = false
nonempty (_ ∷ _) = true

unfoldable pub scoped_expr : List Name → Expr → Bool
scoped_expr scope (num n) = true
scoped_expr scope (ident x) = member x scope
scoped_expr scope (binary op l r) = scoped_expr scope l && scoped_expr scope r

-- The variables introduced by the end of a statement or of a block.
unfoldable mutual
  pub scope_stmt : Stmt → List Name → List Name
  scope_stmt (assign x e) scope = x ∷ scope
  scope_stmt (print e) scope = scope
  scope_stmt (if_then c b) scope = scope_block b scope
  scope_stmt (while_loop c b) scope = scope_block b scope

  pub scope_block : Block → List Name → List Name
  scope_block done scope = scope
  scope_block (next s b) scope = scope_block b (scope_stmt s scope)

unfoldable mutual
  pub scoped_stmt : Stmt → List Name → Bool
  scoped_stmt (assign x e) scope = scoped_expr scope e && nonempty x
  scoped_stmt (print e) scope = scoped_expr scope e
  scoped_stmt (if_then c b) scope = scoped_expr scope c && scoped_block b scope
  scoped_stmt (while_loop c b) scope = scoped_expr scope c && scoped_block b scope

  pub scoped_block : Block → List Name → Bool
  scoped_block done scope = true
  scoped_block (next s b) scope = scoped_stmt s scope && scoped_block b (scope_stmt s scope)

-- Every literal fits the operand byte of OP_PUSH.
unfoldable pub small_expr : Expr → Bool
small_expr (num n) = ltb n 256
small_expr (ident x) = true
small_expr (binary op l r) = small_expr l && small_expr r

unfoldable mutual
  pub small_stmt : Stmt → Bool
  small_stmt (assign x e) = small_expr e
  small_stmt (print e) = small_expr e
  small_stmt (if_then c b) = small_expr c && small_block b
  small_stmt (while_loop c b) = small_expr c && small_block b

  pub small_block : Block → Bool
  small_block done = true
  small_block (next s b) = small_stmt s && small_block b
