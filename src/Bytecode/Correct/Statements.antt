-- ===== src/Bytecode/Correct/Statements.antt =====
-- The code of a statement or a block does on the machine what the statement does to the variables.
use mathlib.Core.Path.{subst}
use native.Mathlib.Decide.{ℕ_discrete}
use systems_programming_proj.Prelude.{
  ℕ, zero, suc, ◌+◌, ◌≤◌, ◌<◌, ◌≡◌, ◌≢◌, refl, ◌∙◌, sym, ap, inl, inr, Bool-cases, some, List, [],
  ◌∷◌, ◌++◌, true, false, arith, length, length-set, get_or-set_self, get_or-set_ne, set, bytes_eq,
  bytes_eq_refl, bytes_eq→eq, if◌then◌else◌,
}
use systems_programming_proj.Prelude.Int.{ℤ, pos, eq_ℤ}
use systems_programming_proj.Bytecode.OpCode.{OpCode, code_of}
use systems_programming_proj.Bytecode.Vm.{Error, Result, ok, err}
use systems_programming_proj.Bytecode.Machine.{Machine}
use systems_programming_proj.Bytecode.Ast.{
  Name, Expr, Stmt, assign, print, while_loop, if_then, Block, done, next,
}
use systems_programming_proj.Bytecode.Semantics.{
  Env, bind_name, eval, Store, Final, finished, stopped, out_of_fuel, and_then, with_value,
  exec_stmt, exec_block,
}
use systems_programming_proj.Bytecode.Codegen.{byte, find}
use systems_programming_proj.Bytecode.Codegen.Table.{get-find, find_injective}
use systems_programming_proj.Bytecode.Codegen.Layout.{
  size_expr, size_stmt, size_block, code_expr, code_stmt, code_block, length-code_expr,
  length-code_stmt, length-code_block,
}
use systems_programming_proj.Bytecode.Codegen.Backpatch.{slot, slot-find}
use systems_programming_proj.Bytecode.Correct.Reach.{
  At, At-append, mach, at, dead, Goes, here, more, Goes-trans,
}
use systems_programming_proj.Bytecode.Correct.Instructions.{
  byte-code_of, step-store, step-print, step-jmp, step-jmp_if_false_taken, step-jmp_if_false_passed,
}
use systems_programming_proj.Bytecode.Correct.Expressions.{
  after, Agrees, Compiles, landed, eval-Goes,
}

-- From machine `m` the code reaches address `q` with the variables and the output of the final
-- state, or stops with its error and its output.
pub data Lands (code : List ℕ) (names : List Name) (q : ℕ) (m : Machine) : Final → Type 0 where
  lands :
      {st : Store} (g : List ℤ)
      → Goes code m (at (mach q [] g st.out))
      → Agrees names g st.env
      → Lands code names q m (finished st)
  dies :
      {e : Error} {out : List ℤ} → Goes code m (dead e out) → Lands code names q m (stopped e out)
  lost : Lands code names q m out_of_fuel

module _ {code : List ℕ} {names : List Name} where
  prefix :
      {q : ℕ} {m m' : Machine} {o : Final}
      → Goes code m (at m')
      → Lands code names q m' o
      → Lands code names q m o
  prefix a (lands g b ag) = lands g (Goes-trans a b) ag
  prefix a (dies b) = dies (Goes-trans a b)
  prefix a lost = lost

  with_value-Lands :
      {q : ℕ} {m : Machine} (r : Result ℤ) (k : ℤ → Machine) (out : List ℤ) (f : ℤ → Final)
      → Goes code m (after r k out)
      → ((v : ℤ) → Lands code names q (k v) (f v))
      → Lands code names q m (with_value r out f)
  with_value-Lands (ok v) k out f a rest = prefix a (rest v)
  with_value-Lands (err e) k out f a rest = dies a

  and_then-Lands :
      {q q' : ℕ} {m : Machine} {o : Final} (k : Store → Final)
      → Lands code names q m o
      → ((st : Store) (g : List ℤ)
          → Agrees names g st.env
          → Lands code names q' (mach q [] g st.out) (k st))
      → Lands code names q' m (and_then o k)
  and_then-Lands k (lands {st} g a ag) rest = prefix a (rest st g ag)
  and_then-Lands k (dies a) rest = dies a
  and_then-Lands k lost rest = lost

-- Two slots belong to two names.
find_apart :
    (x y : Name) (names : List Name) (i j : ℕ)
    → find x names ≡ some i
    → find y names ≡ some j
    → i ≢ j
    → bytes_eq x y ≡ false
find_apart x y names i j p q ne = elim (Bool-cases (bytes_eq x y)) [
  | inl e ↦ let same = bytes_eq→eq x y e in absurd (ne (cc (p, q, ap (λ z. find z names) same)))
  | inr e ↦ e
]

-- A store into the slot of a variable is an assignment to it.
Agrees-set :
    {names : List Name} {g : List ℤ} {env : Env} (x : Name) (i : ℕ) (v : ℤ)
    → length names ≡ 256
    → Agrees names g env
    → find x names ≡ some i
    → Agrees names (set g i v) (bind_name x v env)
Agrees-set {names} {g} {env} x i v wide ag found = record {
  room = length-set g i v ∙ ag.room;
  values = λ y j h. elim (ℕ_discrete i j) [
    | yes e ↦
        let same : bytes_eq x y ≡ true =
          rw (find_injective y x names i (h ∙ ap some (sym e)) found) (bytes_eq_refl x) in
        rw (← e, same)
          (get_or-set_self g i v (pos 0) (omega (arith, ag.room, (get-find x names i found).1)))
    | no ne ↦
        let apart : bytes_eq x y ≡ false = find_apart x y names i j found h ne in
        rw apart (get_or-set_ne g i j v (pos 0) ne ∙ ag.values y j h)
  ];
}

abbrev pub Resolves : List Name → Name → Type 0
Resolves names x = (i : ℕ) × (find x names ≡ some i)

-- The table resolves every variable, and all literals fit a byte.
unfoldable mutual
  pub CompilesStmt : List Name → Stmt → Type 0
  CompilesStmt names (assign x e) = Resolves names x × Compiles names e
  CompilesStmt names (print e) = Compiles names e
  CompilesStmt names (if_then c b) = Compiles names c × CompilesBlock names b
  CompilesStmt names (while_loop c b) = Compiles names c × CompilesBlock names b

  pub CompilesBlock : List Name → Block → Type 0
  CompilesBlock names done = Unit
  CompilesBlock names (next s b) = CompilesStmt names s × CompilesBlock names b

Lands-at :
    {code : List ℕ} {names : List Name} {q q' : ℕ} {m : Machine} {o : Final}
    → q ≡ q'
    → Lands code names q m o
    → Lands code names q' m o
Lands-at {code} {names} {m} {o} e h = subst (λ q. Lands code names q m o) e h

module _ (code : List ℕ) (names : List Name) (wide : length names ≡ 256) where
  -- A condition, its jump over what follows, and the two ways to go on.
  branch-Lands :
      (c : Expr) (p q dest : ℕ) (tail : List ℕ) (g : List ℤ) (st : Store) {o_zero o_other : Final}
      → Agrees names g st.env
      → Compiles names c
      → At code p
          (code_expr (slot names) c ++ byte (code_of OpCode.jmp_if_false) ∷ byte dest ∷ tail)
      → size_expr c ≤ 256
      → dest < 256
      → Lands code names q (mach dest [] g st.out) o_zero
      → (At code (p + size_expr c + 2) tail
          → Lands code names q (mach (p + size_expr c + 2) [] g st.out) o_other)
      → Lands code names q
          (mach p [] g st.out)
          (with_value (eval st.env c) st.out λ v. if eq_ℤ v (pos 0) then o_zero else o_other)
  branch-Lands c p q dest tail g st ag ce h room low on_zero other =
      let target : byte dest ≡ dest = omega arith in
      let (he, rest) =
        At-append code p (code_expr (slot names) c)
          (byte (code_of OpCode.jmp_if_false) ∷ byte dest ∷ tail) h in
      let (h₀, (h₁, h₂)) = rw (length-code_expr, byte-code_of, target) at rest in
      let behind : At code (p + size_expr c + 2) tail =
        subst (λ a. At code a tail) (omega arith) h₂ in
      with_value-Lands (eval st.env c) (λ v. mach (p + size_expr c) (v ∷ []) g st.out) st.out _
        (eval-Goes code names g st.env st.out c p [] wide ag ce he (omega arith))
        λ v. elim (Bool-cases (eq_ℤ v (pos 0))) [
          | inl e ↦
              let s =
                step-jmp_if_false_taken code (p + size_expr c) [] g st.out dest v (h₀, (h₁, tt))
                  e in
              rw e (prefix (more refl s here) on_zero)
          | inr e ↦
              let s =
                step-jmp_if_false_passed code (p + size_expr c) [] g st.out dest v (h₀, (h₁, tt))
                  e in
              rw e (prefix (more refl s (landed (omega arith))) (other behind))
        ]

  mutual
    unfolding exec_stmt code_stmt size_stmt CompilesStmt

    exec_stmt-Lands_from :
        (f : ℕ) (s : Stmt) (p : ℕ) (g : List ℤ) (st : Store)
        → Agrees names g st.env
        → CompilesStmt names s
        → At code p (code_stmt (slot names) p s)
        → p + size_stmt s < 256
        → Lands code names (p + size_stmt s) (mach p [] g st.out) (exec_stmt f s st)
    exec_stmt-Lands_from zero s p g st ag c h short = lost
    exec_stmt-Lands_from (suc f) (assign x e) p g st ag ((i, found), ce) h short =
        let target : byte (slot names x) ≡ i =
          rw (slot-find names x i found) (omega (arith, (get-find x names i found).1)) in
        let (he, rest) =
          At-append code p (code_expr (slot names) e)
            (byte (code_of OpCode.store) ∷ byte (slot names x) ∷ []) h in
        let hs = rw (length-code_expr, byte-code_of, target) at rest in
        with_value-Lands (eval st.env e) (λ v. mach (p + size_expr e) (v ∷ []) g st.out) st.out _
          (eval-Goes code names g st.env st.out e p [] wide ag ce he (omega arith))
          λ v.
            lands (set g i v)
              (more refl (step-store code (p + size_expr e) [] g st.out i v hs)
                (landed (omega arith)))
              (Agrees-set x i v wide ag found)
    exec_stmt-Lands_from (suc f) (print e) p g st ag ce h short =
        let (he, rest) =
          At-append code p (code_expr (slot names) e) (byte (code_of OpCode.print) ∷ []) h in
        let hs = rw (length-code_expr, byte-code_of) at rest in
        with_value-Lands (eval st.env e) (λ v. mach (p + size_expr e) (v ∷ []) g st.out) st.out _
          (eval-Goes code names g st.env st.out e p [] wide ag ce he (omega arith))
          λ v.
            lands g
              (more refl (step-print code (p + size_expr e) [] g st.out v hs)
                (landed (omega arith)))
              ag
    exec_stmt-Lands_from (suc f) (if_then c b) p g st ag (ce, cb) h short =
        branch-Lands c p (p + (size_expr c + 2 + size_block b)) _ _ g st ag ce h (omega arith)
          (omega arith) (lands g (landed (omega arith)) ag)
          λ body.
            Lands-at (omega arith)
              (exec_block-Lands_from f b (p + size_expr c + 2) g st ag cb body (omega arith))
    exec_stmt-Lands_from (suc f) (while_loop c b) p g st ag (ce, cb) h short =
        let first = p + size_expr c + 2 in
        branch-Lands c p (p + (size_expr c + 4 + size_block b)) _ _ g st ag ce h (omega arith)
          (omega arith) (lands g (landed (omega arith)) ag)
          λ rest.
            let (body, jump) =
              At-append code first (code_block (slot names) first b)
                (byte (code_of OpCode.jmp) ∷ byte p ∷ []) rest in
            let target : byte p ≡ p = omega arith in
            let hj = rw (length-code_block, byte-code_of, target) at jump in
            and_then-Lands _ (exec_block-Lands_from f b first g st ag cb body (omega arith))
              λ st' g' ag'.
                prefix (more refl (step-jmp code (first + size_block b) [] g' st'.out p hj) here)
                  (exec_stmt-Lands_from f (while_loop c b) p g' st' ag' (ce, cb) h short)

    exec_block-Lands_from :
        (f : ℕ) (b : Block) (p : ℕ) (g : List ℤ) (st : Store)
        → Agrees names g st.env
        → CompilesBlock names b
        → At code p (code_block (slot names) p b)
        → p + size_block b < 256
        → Lands code names (p + size_block b) (mach p [] g st.out) (exec_block f b st)
    exec_block-Lands_from zero b p g st ag c h short = lost
    exec_block-Lands_from (suc f) done p g st ag c h short = lands g (landed (omega arith)) ag
    exec_block-Lands_from (suc f) (next s b) p g st ag (cs, cb) h short =
        let (hs, rest) =
          At-append code p (code_stmt (slot names) p s)
            (code_block (slot names) (p + size_stmt s) b) h in
        let hb = rw length-code_stmt at rest in
        Lands-at (omega arith) (
          and_then-Lands _ (exec_stmt-Lands_from f s p g st ag cs hs (omega arith)) λ st' g' ag'.
            exec_block-Lands_from f b (p + size_stmt s) g' st' ag' cb hb (omega arith))

  -- From a stack that is empty, with the variables in their slots, the code of a block at address `p`
  -- reaches the address behind it with the block's effect on variables and output, or stops with
  -- its error.
  pub exec_block-Lands :
      (f : ℕ) (b : Block) (p : ℕ) (g : List ℤ) (st : Store)
      → Agrees names g st.env
      → CompilesBlock names b
      → At code p (code_block (slot names) p b)
      → p + size_block b < 256
      → Lands code names (p + size_block b) (mach p [] g st.out) (exec_block f b st)
  exec_block-Lands f b p g st = exec_block-Lands_from f b p g st
