-- ===== src/Bytecode/Parser.antt =====
-- `parse_statement` to `parse_factor` and `parser` of bytecode-vm/compiler.c. The position in the
-- token array is the list of the tokens from there on. A read behind TOK_EOF, a node that is
-- returned without a type or not at all, and a 129th statement in a body, are undefined in C.
pub mod Printer
pub mod Atoms
pub mod Expressions
pub mod Programs
pub mod Precedence
mod Tests
use systems_programming_proj.Prelude.{
  ℕ, zero, suc, ◌+◌, Bool, true, false, Option, none, some, List, [], ◌∷◌, ltb, if◌then◌else◌,
}
use systems_programming_proj.Bytecode.Ast.{
  Name, BinOp, add, sub, mul, div, gt, lt, eqeq, Expr, num, ident, binary, Stmt, assign, print,
  while_loop, if_then, Block, done, next,
}

pub data Token : Type 0 where
  tok_num : ℕ → Token
  tok_ident : Name → Token
  tok_plus tok_minus tok_star tok_slash tok_eq tok_gt tok_lt tok_print tok_while tok_if : Token
  tok_lbrace tok_rbrace tok_lparen tok_rparen tok_eqeq tok_eof : Token

abbrev pub Tokens : Type 0
Tokens = List Token

pub data Fault : Type 0 where
  exited undefined : Fault

pub data Parsed {ℓ} (A : Type ℓ) : Type ℓ where
  found : A → Parsed A
  fault : Fault → Parsed A
  exhausted : Parsed A

infixl 5 ◌>>=◌
abbrev pub ◌>>=◌ {ℓ κ} : {A : Type ℓ} {B : Type κ} → Parsed A → (A → Parsed B) → Parsed B
p >>= f = elim p [ found a ↦ f a | fault e ↦ fault e | exhausted ↦ exhausted ]

-- `(*i)++`
abbrev pub advance : Tokens → Tokens
advance [] = []
advance (t ∷ ts) = ts

-- The conditions of the three loops, with the node that the token stands for.
unfoldable pub comparison_op : Tokens → Option BinOp
comparison_op (tok_eqeq ∷ ts) = some eqeq
comparison_op (tok_gt ∷ ts) = some gt
comparison_op (tok_lt ∷ ts) = some lt
comparison_op _ = none

unfoldable pub additive_op : Tokens → Option BinOp
additive_op (tok_plus ∷ ts) = some add
additive_op (tok_minus ∷ ts) = some sub
additive_op _ = none

unfoldable pub factor_op : Tokens → Option BinOp
factor_op (tok_slash ∷ ts) = some div
factor_op (tok_star ∷ ts) = some mul
factor_op _ = none

-- Each call costs a unit of fuel, and so does each round of a loop.
unfoldable mutual
  pub parse_comparison : ℕ → Tokens → Parsed (Expr × Tokens)
  parse_comparison zero ts = exhausted
  parse_comparison (suc fuel) ts = do
    (left, ts₁) ← parse_expression fuel ts
    comparison_loop fuel left ts₁

  pub comparison_loop : ℕ → Expr → Tokens → Parsed (Expr × Tokens)
  comparison_loop zero left ts = exhausted
  comparison_loop (suc fuel) left ts = elim (comparison_op ts) [
    | none ↦ found (left, ts)
    | some op ↦ do
      (right, ts₁) ← parse_expression fuel (advance ts)
      comparison_loop fuel (binary op left right) ts₁
  ]

  pub parse_expression : ℕ → Tokens → Parsed (Expr × Tokens)
  parse_expression zero ts = exhausted
  parse_expression (suc fuel) ts = do
    (left, ts₁) ← parse_term fuel ts
    expression_loop fuel left ts₁

  pub expression_loop : ℕ → Expr → Tokens → Parsed (Expr × Tokens)
  expression_loop zero left ts = exhausted
  expression_loop (suc fuel) left ts = elim (additive_op ts) [
    | none ↦ found (left, ts)
    | some op ↦ do
      (right, ts₁) ← parse_term fuel (advance ts)
      expression_loop fuel (binary op left right) ts₁
  ]

  pub parse_term : ℕ → Tokens → Parsed (Expr × Tokens)
  parse_term zero ts = exhausted
  parse_term (suc fuel) ts = do (left, ts₁) ← parse_factor fuel ts; term_loop fuel left ts₁

  -- The right operand is an expression, as in the source.
  pub term_loop : ℕ → Expr → Tokens → Parsed (Expr × Tokens)
  term_loop zero left ts = exhausted
  term_loop (suc fuel) left ts = elim (factor_op ts) [
    | none ↦ found (left, ts)
    | some op ↦ do
      (right, ts₁) ← parse_expression fuel (advance ts)
      term_loop fuel (binary op left right) ts₁
  ]

  pub parse_factor : ℕ → Tokens → Parsed (Expr × Tokens)
  parse_factor zero ts = exhausted
  parse_factor (suc fuel) (tok_ident x ∷ ts) = found (ident x, ts)
  parse_factor (suc fuel) (tok_num n ∷ ts) = found (num n, ts)
  parse_factor (suc fuel) (tok_lparen ∷ ts) = do
    (node, ts₁) ← parse_comparison fuel ts
    found (node, advance ts₁)
  parse_factor (suc fuel) _ = fault undefined

abbrev pub body_size : ℕ
body_size = 128

unfoldable mutual
  pub parse_statement : ℕ → Tokens → Parsed (Stmt × Tokens)
  parse_statement zero ts = exhausted
  parse_statement (suc fuel) (tok_ident x ∷ tok_eq ∷ ts) = do
    (e, ts₁) ← parse_comparison fuel ts
    found (assign x e, ts₁)
  parse_statement (suc fuel) (tok_ident x ∷ _) = fault undefined
  parse_statement (suc fuel) (tok_print ∷ ts) = do
    (e, ts₁) ← parse_comparison fuel ts
    found (print e, ts₁)
  parse_statement (suc fuel) (tok_if ∷ ts) = do
    (c, ts₁) ← parse_comparison fuel ts
    (body, ts₂) ← parse_body fuel 0 (advance ts₁)
    found (if_then c body, ts₂)
  parse_statement (suc fuel) (tok_while ∷ ts) = do
    (c, ts₁) ← parse_comparison fuel ts
    (body, ts₂) ← parse_body fuel 0 (advance ts₁)
    found (while_loop c body, ts₂)
  parse_statement (suc fuel) [] = fault undefined
  parse_statement (suc fuel) _ = fault exited

  -- The loop over a body, its closing brace included; `body_ptr` statements are there already.
  pub parse_body : ℕ → ℕ → Tokens → Parsed (Block × Tokens)
  parse_body zero body_ptr ts = exhausted
  parse_body (suc fuel) body_ptr (tok_rbrace ∷ ts) = found (done, ts)
  parse_body (suc fuel) body_ptr ts = do
    (s, ts₁) ← parse_statement fuel ts
    let rest = parse_body fuel (suc body_ptr) ts₁
    (body, ts₂) ← (if ltb body_ptr body_size then rest else fault undefined)
    found (next s body, ts₂)

unfoldable pub parser : ℕ → Tokens → Parsed Block
parser zero ts = exhausted
parser (suc fuel) (tok_eof ∷ ts) = found done
parser (suc fuel) ts = do
  (s, ts₁) ← parse_statement fuel ts
  statements ← parser fuel ts₁
  found (next s statements)
