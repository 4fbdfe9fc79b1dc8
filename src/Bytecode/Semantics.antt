-- ===== src/Bytecode/Semantics.antt =====
-- What the programs of bytecode-vm/compiler.c mean, by recursion on the tree: an independent
-- reference for the code that the compiler emits. A variable that was never assigned is 0; an
-- operation whose result no `int` holds is an error, as is a division by zero.
use systems_programming_proj.Prelude.{ℕ, zero, suc, List, [], ◌∷◌, ◌++◌, bytes_eq, if◌then◌else◌}
use systems_programming_proj.Prelude.Int.{ℤ, pos, ◌+ℤ◌, ◌-ℤ◌, ◌*ℤ◌, ltb_ℤ, eq_ℤ}
use systems_programming_proj.Bytecode.Vm.{Error, Result, ok, err, ◌>>=◌, int_result, divide, flag}
use systems_programming_proj.Bytecode.Ast.{
  Name, BinOp, add, sub, mul, div, gt, lt, eqeq, Expr, num, ident, binary, Stmt, assign, print,
  while_loop, if_then, Block, done, next,
}

abbrev pub Env : Type 0
Env = Name → ℤ

abbrev pub bind_name : Name → ℤ → Env → Env
bind_name x v env y = if bytes_eq x y then v else env y

unfoldable pub apply : BinOp → ℤ → ℤ → Result ℤ
apply add a b = int_result (a +ℤ b)
apply sub a b = int_result (a -ℤ b)
apply mul a b = int_result (a *ℤ b)
apply div a b = divide a b
apply gt a b = ok (flag (ltb_ℤ b a))
apply lt a b = ok (flag (ltb_ℤ a b))
apply eqeq a b = ok (flag (eq_ℤ a b))

unfoldable pub eval : Env → Expr → Result ℤ
eval env (num n) = ok (pos n)
eval env (ident x) = ok (env x)
eval env (binary op l r) = do a ← eval env l; b ← eval env r; apply op a b

-- The variables, and what has been printed.
pub record Store : Type 0 where
  pub env : Env
  pub out : List ℤ

abbrev pub store : Env → List ℤ → Store
store env out = record { env = env; out = out }

pub data Final : Type 0 where
  finished : Store → Final
  stopped : Error → List ℤ → Final
  out_of_fuel : Final

abbrev pub and_then : Final → (Store → Final) → Final
and_then (finished st) k = k st
and_then (stopped e out) k = stopped e out
and_then out_of_fuel k = out_of_fuel

abbrev pub with_value : Result ℤ → List ℤ → (ℤ → Final) → Final
with_value (ok v) out k = k v
with_value (err e) out k = stopped e out

-- Each statement, and each round of a loop, spends one unit of fuel.
unfoldable mutual
  pub exec_stmt : ℕ → Stmt → Store → Final
  exec_stmt zero s st = out_of_fuel
  exec_stmt (suc f) (assign x e) st =
      with_value (eval st.env e) st.out λ v. finished (store (bind_name x v st.env) st.out)
  exec_stmt (suc f) (print e) st =
      with_value (eval st.env e) st.out λ v. finished (store st.env (st.out ++ v ∷ []))
  exec_stmt (suc f) (if_then c b) st =
      let taken = exec_block f b st in
      with_value (eval st.env c) st.out λ v. if eq_ℤ v (pos 0) then finished st else taken
  exec_stmt (suc f) (while_loop c b) st =
      let again = exec_stmt f (while_loop c b) in
      let round = and_then (exec_block f b st) again in
      with_value (eval st.env c) st.out λ v. if eq_ℤ v (pos 0) then finished st else round

  pub exec_block : ℕ → Block → Store → Final
  exec_block zero b st = out_of_fuel
  exec_block (suc f) done st = finished st
  exec_block (suc f) (next s b) st = and_then (exec_stmt f s st) (exec_block f b)
