-- ===== src/Bytecode/Correct/Expressions.antt =====
-- The code of an expression leaves its value on the stack, or stops with its error.
use mathlib.Core.Path.{subst}
use systems_programming_proj.Prelude.{
  ℕ, ◌+◌, ◌≤◌, ◌<◌, ◌≡◌, refl, some, List, [], ◌∷◌, ◌++◌, true, arith, length, get_or,
}
use systems_programming_proj.Prelude.Int.{ℤ, pos}
use systems_programming_proj.Bytecode.OpCode.{code_of}
use systems_programming_proj.Bytecode.Vm.{Result, ok, err, ◌>>=◌}
use systems_programming_proj.Bytecode.Machine.{Machine, combine, perform, step}
use systems_programming_proj.Bytecode.Ast.{Name, BinOp, add, eqeq, Expr, num, ident, binary}
use systems_programming_proj.Bytecode.Semantics.{Env, apply, eval}
use systems_programming_proj.Bytecode.Codegen.{byte, find, op_code}
use systems_programming_proj.Bytecode.Codegen.Table.{get-find}
use systems_programming_proj.Bytecode.Codegen.Layout.{
  size_expr, code_expr, length-code_expr, size_expr-pos,
}
use systems_programming_proj.Bytecode.Codegen.Backpatch.{slot, slot-find}
use systems_programming_proj.Bytecode.Correct.Reach.{
  At, At-append, mach, End, at, dead, Goes, here, more, fail, Goes-trans,
}
use systems_programming_proj.Bytecode.Correct.Instructions.{
  byte-code_of, step-push, step-load, IsBinary, step-binary,
}

abbrev pub after : Result ℤ → (ℤ → Machine) → List ℤ → End
after (ok v) k out = at (k v)
after (err e) k out = dead e out

after-bind :
    {code : List ℕ} {m : Machine} (r : Result ℤ) (f : ℤ → Result ℤ) (k k' : ℤ → Machine)
    (out : List ℤ)
    → Goes code m (after r k out)
    → ((v : ℤ) → Goes code (k v) (after (f v) k' out))
    → Goes code m (after (r >>= f) k' out)
after-bind (ok v) f k k' out h next = Goes-trans h (next v)
after-bind (err e) f k k' out h next = h

after-step :
    {code : List ℕ} {m : Machine} (r : Result ℤ) (k : ℤ → Machine)
    → m.running ≡ true
    → step code m ≡ (r >>= λ v. ok (k v))
    → Goes code m (after r k m.out)
after-step (ok v) k q h = more q h here
after-step (err e) k q h = fail q h

-- The globals hold the value of every variable that the table resolves.
pub record Agrees (names : List Name) (g : List ℤ) (env : Env) : Type 0 where
  pub room : length g ≡ 256
  pub values : (x : Name) (i : ℕ) → find x names ≡ some i → get_or g i (pos 0) ≡ env x

-- The table resolves every variable of the expression, and its literals fit a byte.
abbrev pub Compiles : List Name → Expr → Type 0
Compiles names (num n) = n < 256
Compiles names (ident x) = (i : ℕ) × (find x names ≡ some i)
Compiles names (binary op l r) = Compiles names l × Compiles names r

apply-combine : (op : BinOp) (a b : ℤ) → combine (op_code op) a b ≡ apply op a b
unfolding combine op_code apply
apply-combine add a b = refl
apply-combine eqeq a b = ground arith
apply-combine _ a b = refl

op_code-IsBinary : (op : BinOp) → IsBinary (op_code op)
unfolding op_code perform
op_code-IsBinary add code m = refl
op_code-IsBinary _ code m = refl

-- A final address, by an equation.
pub landed :
    {code : List ℕ} {p q : ℕ} {xs g out : List ℤ}
    → p ≡ q
    → Goes code (mach p xs g out) (at (mach q xs g out))
landed {code} {p} {xs} {g} {out} e =
    subst (λ q. Goes code (mach p xs g out) (at (mach q xs g out))) e here

module _ (code : List ℕ) (names : List Name) (g : List ℤ) (env : Env) (out : List ℤ) where
  -- With room for its size above the stack `xs`, the code of `e` pushes the value of `e` and goes
  -- on behind itself, or stops with the error of `e`.
  pub eval-Goes :
      (e : Expr) (p : ℕ) (xs : List ℤ)
      → length names ≡ 256
      → Agrees names g env
      → Compiles names e
      → At code p (code_expr (slot names) e)
      → length xs + size_expr e ≤ 256
      → Goes code
          (mach p xs g out)
          (after (eval env e) (λ v. mach (p + size_expr e) (v ∷ xs) g out) out)
  unfolding eval code_expr size_expr
  eval-Goes (num n) p xs wide ag small h room =
      let same : byte n ≡ n = omega arith in
      let s = step-push code p xs g out n (rw same at h) (omega arith) in
      more refl s (landed (omega arith))
  eval-Goes (ident x) p xs wide ag (i, found) h room =
      let same : byte (slot names x) ≡ i =
        rw (slot-find names x i found) (omega (arith, (get-find x names i found).1)) in
      let s = step-load code p xs g out i (rw same at h) (omega arith) in
      rw (← ag.values x i found) (more refl s (landed (omega arith)))
  eval-Goes (binary op l r) p xs wide ag (cl, cr) h room =
      let code_r = code_expr (slot names) r in
      let (hl, rest) =
        At-append code p (code_expr (slot names) l) (code_r ++ byte (code_of (op_code op)) ∷ [])
          h in
      let (hr, ho) =
        At-append code (p + size_expr l) code_r (byte (code_of (op_code op)) ∷ [])
          (rw length-code_expr at rest) in
      let h_op = rw (length-code_expr, byte-code_of) at ho in
      after-bind (eval env l) _ _ _ out (eval-Goes l p xs wide ag cl hl (omega arith)) λ a.
        after-bind (eval env r) _ _ _ out
          (eval-Goes r (p + size_expr l) (a ∷ xs) wide ag cr hr (omega (arith, size_expr-pos l)))
          λ b. rw (← apply-combine op a b) (
            subst
              (λ q.
                Goes code (mach (p + size_expr l + size_expr r) (b ∷ a ∷ xs) g out)
                  (after (combine (op_code op) a b) (λ v. mach q (v ∷ xs) g out) out))
              (omega arith)
              (after-step (combine (op_code op) a b) _ refl (
                step-binary code (p + size_expr l + size_expr r) xs g out (op_code op) a b
                  (op_code-IsBinary op) h_op (omega arith))))
