-- ===== src/Bytecode/Parser/Precedence.antt =====
-- How `parse_term` of bytecode-vm/compiler.c groups its operands.
use systems_programming_proj.Prelude.{ℕ, suc, ◌+◌, ◌-◌, ◌≤◌, ◌∷◌, ◌≡◌, refl, sym, arith}
use mathlib.Core.Path.{subst}
use systems_programming_proj.Bytecode.Ast.{add, mul, Expr, binary}
use systems_programming_proj.Bytecode.Parser.{
  tok_star, tok_plus, Tokens, found, additive_op, factor_op, parse_comparison, parse_expression,
}
use systems_programming_proj.Bytecode.Parser.Printer.{print_expr, expr_fuel}
use systems_programming_proj.Bytecode.Parser.Atoms.{
  Ends, lift_expression, lift_comparison, pair_term, pair_expression,
}
use systems_programming_proj.Bytecode.Parser.Expressions.{more, print_expr-Reads, term_reads}

module _ (a b c : Expr) (f : ℕ) (ts : Tokens) (h : Ends ts) where
  abbrev sum : Tokens
  sum = print_expr b (tok_plus ∷ print_expr c ts)

  abbrev product : Tokens
  product = print_expr a (tok_star ∷ sum)

  sum_read :
      expr_fuel b ≤ suc f
      → expr_fuel c ≤ suc f
      → parse_expression (more 4 f) sum ≡ found (binary add b c, ts)
  unfolding additive_op factor_op
  sum_read be ce =
      pair_expression b c add (suc f) sum tok_plus (print_expr c ts) ts
        (term_reads b (print_expr-Reads b) (suc f) (tok_plus ∷ print_expr c ts) (omega arith) refl)
        refl (term_reads c (print_expr-Reads c) f ts ce h.no_factor) h.no_additive

  product_read :
      expr_fuel a ≤ suc f
      → expr_fuel b ≤ suc f
      → expr_fuel c ≤ suc f
      → parse_comparison (more 8 f) product ≡ found (binary mul a (binary add b c), ts)
  unfolding factor_op
  product_read ae be ce =
      let e = binary mul a (binary add b c) in
      lift_comparison e (more 6 f) product ts
        (lift_expression e (more 5 f) product ts
          (pair_term a (binary add b c) mul (more 3 f) product tok_star sum ts
            (print_expr-Reads a (more 5 f) (tok_star ∷ sum) (omega arith)) refl (sum_read be ce)
            h.no_factor)
          h.no_additive)
        h.no_comparison

-- The right operand of a multiplication is a whole sum: `a * b + c` without parentheses is parsed as
-- `a * (b + c)`, for any three operands that are names, literals or in parentheses.
pub parse_comparison-product :
    (a b c : Expr) (fuel : ℕ) (ts : Tokens)
    → 8 + (expr_fuel a + (expr_fuel b + expr_fuel c)) ≤ fuel
    → Ends ts
    → parse_comparison fuel (print_expr a (tok_star ∷ print_expr b (tok_plus ∷ print_expr c ts)))
      ≡ found (binary mul a (binary add b c), ts)
parse_comparison-product a b c fuel ts enough h =
    let f = fuel - 8 in
    let e : fuel ≡ more 8 f = omega (arith, enough) in
    subst
      (λ i.
        parse_comparison i (print_expr a (tok_star ∷ print_expr b (tok_plus ∷ print_expr c ts)))
        ≡ found (binary mul a (binary add b c), ts))
      (sym e)
      (product_read a b c f ts h (omega (arith, enough)) (omega (arith, enough))
        (omega (arith, enough)))
