-- ===== src/Bytecode/Parser/Expressions.antt =====
-- The parser of bytecode-vm/compiler.c on printed expressions.
use systems_programming_proj.Prelude.{
  ℕ, zero, suc, ◌+◌, ◌-◌, ◌≤◌, none, some, ◌∷◌, ◌≡◌, refl, sym, arith,
}
use mathlib.Core.Path.{subst}
use systems_programming_proj.Bytecode.Ast.{
  BinOp, add, sub, mul, div, gt, lt, eqeq, Expr, num, ident, binary,
}
use systems_programming_proj.Bytecode.Parser.{
  tok_lparen, tok_rparen, Tokens, found, comparison_op, additive_op, factor_op, parse_comparison,
  parse_expression, parse_term, parse_factor,
}
use systems_programming_proj.Bytecode.Parser.Printer.{op_token, print_expr, expr_fuel}
use systems_programming_proj.Bytecode.Parser.Atoms.{
  Ends, lift_term, lift_expression, lift_comparison, pair_term, pair_expression, pair_comparison,
}

-- So many successors of a number.
abbrev pub more : ℕ → ℕ → ℕ
more zero f = f
more (suc n) f = suc (more n f)

abbrev pub Reads : Expr → Type 0
Reads e =
    (fuel : ℕ) (ts : Tokens)
    → expr_fuel e ≤ fuel
    → parse_factor fuel (print_expr e ts) ≡ found (e, ts)

module _ (e : Expr) (reads : Reads e) (f : ℕ) (ts : Tokens) (enough : expr_fuel e ≤ suc f) where
  pub term_reads : factor_op ts ≡ none → parse_term (more 2 f) (print_expr e ts) ≡ found (e, ts)
  term_reads = lift_term e f (print_expr e ts) ts (reads (suc f) ts enough)

  expression_reads :
      factor_op ts ≡ none
      → additive_op ts ≡ none
      → parse_expression (more 3 f) (print_expr e ts) ≡ found (e, ts)
  expression_reads s₁ s₂ = lift_expression e (suc f) (print_expr e ts) ts (term_reads s₁) s₂

  comparison_reads : Ends ts → parse_comparison (more 4 f) (print_expr e ts) ≡ found (e, ts)
  comparison_reads h =
      lift_comparison e (more 2 f) (print_expr e ts) ts (expression_reads h.no_factor h.no_additive)
        h.no_comparison

module _ (l r : Expr) (left : Reads l) (right : Reads r) (op : BinOp) (f : ℕ) (ts : Tokens) where
  abbrev both : Tokens
  both = print_expr l (op_token op ∷ print_expr r ts)

  abbrev after : Tokens
  after = print_expr r ts

  module _ (le : expr_fuel l ≤ suc f) (re : expr_fuel r ≤ suc f) (h : Ends ts) where
    comparison_class :
        comparison_op (op_token op ∷ after) ≡ some op
        → additive_op (op_token op ∷ after) ≡ none
        → factor_op (op_token op ∷ after) ≡ none
        → parse_comparison (more 7 f) both ≡ found (binary op l r, ts)
    comparison_class goes s₁ s₂ =
        pair_comparison l r op (more 4 f) both (op_token op) after ts
          (expression_reads l left (more 3 f) (op_token op ∷ after) (omega arith) s₂ s₁) goes
          (expression_reads r right (more 2 f) ts (omega arith) h.no_factor h.no_additive)
          h.no_comparison

    additive_class :
        additive_op (op_token op ∷ after) ≡ some op
        → factor_op (op_token op ∷ after) ≡ none
        → parse_comparison (more 7 f) both ≡ found (binary op l r, ts)
    additive_class goes s₂ =
        lift_comparison (binary op l r) (more 5 f) both ts
          (pair_expression l r op (more 3 f) both (op_token op) after ts
            (term_reads l left (more 3 f) (op_token op ∷ after) (omega arith) s₂) goes
            (term_reads r right (more 2 f) ts (omega arith) h.no_factor) h.no_additive)
          h.no_comparison

    factor_class :
        factor_op (op_token op ∷ after) ≡ some op
        → parse_comparison (more 7 f) both ≡ found (binary op l r, ts)
    factor_class goes =
        lift_comparison (binary op l r) (more 5 f) both ts
          (lift_expression (binary op l r) (more 4 f) both ts
            (pair_term l r op (more 2 f) both (op_token op) after ts
              (left (more 4 f) (op_token op ∷ after) (omega arith)) goes
              (expression_reads r right f ts re h.no_factor h.no_additive) h.no_factor)
            h.no_additive)
          h.no_comparison

operation-Reads :
    (l r : Expr)
    → Reads l
    → Reads r
    → (op : BinOp) (f : ℕ) (ts : Tokens) → expr_fuel l ≤ suc f
    → expr_fuel r ≤ suc f
    → Ends ts
    → parse_comparison (more 7 f) (print_expr l (op_token op ∷ print_expr r ts))
      ≡ found (binary op l r, ts)
unfolding comparison_op additive_op factor_op
operation-Reads l r left right add f ts le re h =
    additive_class l r left right add f ts le re h refl refl
operation-Reads l r left right sub f ts le re h =
    additive_class l r left right sub f ts le re h refl refl
operation-Reads l r left right mul f ts le re h = factor_class l r left right mul f ts le re h refl
operation-Reads l r left right div f ts le re h = factor_class l r left right div f ts le re h refl
operation-Reads l r left right gt f ts le re h =
    comparison_class l r left right gt f ts le re h refl refl refl
operation-Reads l r left right lt f ts le re h =
    comparison_class l r left right lt f ts le re h refl refl refl
operation-Reads l r left right eqeq f ts le re h =
    comparison_class l r left right eqeq f ts le re h refl refl refl

in_parentheses :
    (e : Expr) (f : ℕ) (ts rest : Tokens)
    → parse_comparison f ts ≡ found (e, tok_rparen ∷ rest)
    → parse_factor (suc f) (tok_lparen ∷ ts) ≡ found (e, rest)
unfolding parse_factor
in_parentheses e f ts rest read = rw read refl

parenthesis-Ends : (ts : Tokens) → Ends (tok_rparen ∷ ts)
unfolding comparison_op additive_op factor_op
parenthesis-Ends ts = record { no_comparison = refl; no_additive = refl; no_factor = refl }

num_read :
    (n f : ℕ) (ts : Tokens) → parse_factor (suc f) (print_expr (num n) ts) ≡ found (num n, ts)
unfolding parse_factor print_expr
num_read n f ts = refl

pub print_expr-Reads : (e : Expr) → Reads e
unfolding print_expr expr_fuel parse_factor
print_expr-Reads (num n) fuel ts enough =
    let e : fuel ≡ suc (fuel - 1) = omega (arith, enough) in
    subst (λ i. parse_factor i (print_expr (num n) ts) ≡ found (num n, ts)) (sym e) refl
print_expr-Reads (ident x) fuel ts enough =
    let e : fuel ≡ suc (fuel - 1) = omega (arith, enough) in
    subst (λ i. parse_factor i (print_expr (ident x) ts) ≡ found (ident x, ts)) (sym e) refl
print_expr-Reads (binary op l r) fuel ts enough =
    let f = fuel - 8 in
    let e : fuel ≡ more 8 f = omega (arith, enough) in
    let inner = print_expr l (op_token op ∷ print_expr r (tok_rparen ∷ ts)) in
    subst (λ i. parse_factor i (tok_lparen ∷ inner) ≡ found (binary op l r, ts)) (sym e)
      (in_parentheses (binary op l r) (more 7 f) inner ts (
        operation-Reads l r (print_expr-Reads l) (print_expr-Reads r) op f (tok_rparen ∷ ts)
          (omega (arith, enough)) (omega (arith, enough)) (parenthesis-Ends ts)))

-- `parse_comparison` reads a printed expression back, in front of any token that no loop takes.
pub parse_comparison-print_expr :
    (e : Expr) (fuel : ℕ) (ts : Tokens)
    → 4 + expr_fuel e ≤ fuel
    → Ends ts
    → parse_comparison fuel (print_expr e ts) ≡ found (e, ts)
parse_comparison-print_expr e fuel ts enough h =
    let f = fuel - 4 in
    let eq : fuel ≡ more 4 f = omega (arith, enough) in
    subst (λ i. parse_comparison i (print_expr e ts) ≡ found (e, ts)) (sym eq)
      (comparison_reads e (print_expr-Reads e) f ts (omega (arith, enough)) h)
