-- ===== src/Bytecode/Parser/Atoms.antt =====
-- The functions of bytecode-vm/compiler.c that parse expressions, where a loop ends at once or after
-- one round.
use systems_programming_proj.Prelude.{ℕ, suc, none, some, ◌∷◌, ◌≡◌, refl, ◌∙◌}
use systems_programming_proj.Bytecode.Ast.{BinOp, Expr, binary}
use systems_programming_proj.Bytecode.Parser.{
  Token, Tokens, found, comparison_op, additive_op, factor_op, parse_comparison, comparison_loop,
  parse_expression, expression_loop, parse_term, term_loop, parse_factor,
}

-- No loop goes on at these tokens.
pub record Ends (ts : Tokens) : Type 0 where
  pub no_comparison : comparison_op ts ≡ none
  pub no_additive : additive_op ts ≡ none
  pub no_factor : factor_op ts ≡ none

term_begins :
    (l : Expr) (f : ℕ) (ts rest : Tokens)
    → parse_factor f ts ≡ found (l, rest)
    → parse_term (suc f) ts ≡ term_loop f l rest
unfolding parse_term
term_begins l f ts rest read = rw read refl

term_ends :
    (l : Expr) (f : ℕ) (rest : Tokens)
    → factor_op rest ≡ none
    → term_loop (suc f) l rest ≡ found (l, rest)
unfolding term_loop
term_ends l f rest stops = rw (stops, term_loop) refl

term_round :
    (l r : Expr) (op : BinOp) (f : ℕ) (t : Token) (after rest : Tokens)
    → factor_op (t ∷ after) ≡ some op
    → parse_expression f after ≡ found (r, rest)
    → term_loop (suc f) l (t ∷ after) ≡ term_loop f (binary op l r) rest
unfolding term_loop
term_round l r op f t after rest goes read = rw (goes, term_loop) (rw read refl)

pub lift_term :
    (e : Expr) (f : ℕ) (ts rest : Tokens)
    → parse_factor (suc f) ts ≡ found (e, rest)
    → factor_op rest ≡ none
    → parse_term (suc (suc f)) ts ≡ found (e, rest)
lift_term e f ts rest read stops = term_begins e (suc f) ts rest read ∙ term_ends e f rest stops

pub pair_term :
    (l r : Expr) (op : BinOp) (f : ℕ) (ts : Tokens) (t : Token) (after rest : Tokens)
    → parse_factor (suc (suc f)) ts ≡ found (l, t ∷ after)
    → factor_op (t ∷ after) ≡ some op
    → parse_expression (suc f) after ≡ found (r, rest)
    → factor_op rest ≡ none
    → parse_term (suc (suc (suc f))) ts ≡ found (binary op l r, rest)
pair_term l r op f ts t after rest left goes right stops =
    term_begins l (suc (suc f)) ts (t ∷ after) left
    ∙ (term_round l r op (suc f) t after rest goes right ∙ term_ends (binary op l r) f rest stops)

expression_begins :
    (l : Expr) (f : ℕ) (ts rest : Tokens)
    → parse_term f ts ≡ found (l, rest)
    → parse_expression (suc f) ts ≡ expression_loop f l rest
unfolding parse_expression
expression_begins l f ts rest read = rw read refl

expression_ends :
    (l : Expr) (f : ℕ) (rest : Tokens)
    → additive_op rest ≡ none
    → expression_loop (suc f) l rest ≡ found (l, rest)
unfolding expression_loop
expression_ends l f rest stops = rw (stops, expression_loop) refl

expression_round :
    (l r : Expr) (op : BinOp) (f : ℕ) (t : Token) (after rest : Tokens)
    → additive_op (t ∷ after) ≡ some op
    → parse_term f after ≡ found (r, rest)
    → expression_loop (suc f) l (t ∷ after) ≡ expression_loop f (binary op l r) rest
unfolding expression_loop
expression_round l r op f t after rest goes read = rw (goes, expression_loop) (rw read refl)

pub lift_expression :
    (e : Expr) (f : ℕ) (ts rest : Tokens)
    → parse_term (suc f) ts ≡ found (e, rest)
    → additive_op rest ≡ none
    → parse_expression (suc (suc f)) ts ≡ found (e, rest)
lift_expression e f ts rest read stops =
    expression_begins e (suc f) ts rest read ∙ expression_ends e f rest stops

pub pair_expression :
    (l r : Expr) (op : BinOp) (f : ℕ) (ts : Tokens) (t : Token) (after rest : Tokens)
    → parse_term (suc (suc f)) ts ≡ found (l, t ∷ after)
    → additive_op (t ∷ after) ≡ some op
    → parse_term (suc f) after ≡ found (r, rest)
    → additive_op rest ≡ none
    → parse_expression (suc (suc (suc f))) ts ≡ found (binary op l r, rest)
pair_expression l r op f ts t after rest left goes right stops =
    expression_begins l (suc (suc f)) ts (t ∷ after) left
    ∙ (expression_round l r op (suc f) t after rest goes right
        ∙ expression_ends (binary op l r) f rest stops)

comparison_begins :
    (l : Expr) (f : ℕ) (ts rest : Tokens)
    → parse_expression f ts ≡ found (l, rest)
    → parse_comparison (suc f) ts ≡ comparison_loop f l rest
unfolding parse_comparison
comparison_begins l f ts rest read = rw read refl

comparison_ends :
    (l : Expr) (f : ℕ) (rest : Tokens)
    → comparison_op rest ≡ none
    → comparison_loop (suc f) l rest ≡ found (l, rest)
unfolding comparison_loop
comparison_ends l f rest stops = rw (stops, comparison_loop) refl

comparison_round :
    (l r : Expr) (op : BinOp) (f : ℕ) (t : Token) (after rest : Tokens)
    → comparison_op (t ∷ after) ≡ some op
    → parse_expression f after ≡ found (r, rest)
    → comparison_loop (suc f) l (t ∷ after) ≡ comparison_loop f (binary op l r) rest
unfolding comparison_loop
comparison_round l r op f t after rest goes read = rw (goes, comparison_loop) (rw read refl)

pub lift_comparison :
    (e : Expr) (f : ℕ) (ts rest : Tokens)
    → parse_expression (suc f) ts ≡ found (e, rest)
    → comparison_op rest ≡ none
    → parse_comparison (suc (suc f)) ts ≡ found (e, rest)
lift_comparison e f ts rest read stops =
    comparison_begins e (suc f) ts rest read ∙ comparison_ends e f rest stops

pub pair_comparison :
    (l r : Expr) (op : BinOp) (f : ℕ) (ts : Tokens) (t : Token) (after rest : Tokens)
    → parse_expression (suc (suc f)) ts ≡ found (l, t ∷ after)
    → comparison_op (t ∷ after) ≡ some op
    → parse_expression (suc f) after ≡ found (r, rest)
    → comparison_op rest ≡ none
    → parse_comparison (suc (suc (suc f))) ts ≡ found (binary op l r, rest)
pair_comparison l r op f ts t after rest left goes right stops =
    comparison_begins l (suc (suc f)) ts (t ∷ after) left
    ∙ (comparison_round l r op (suc f) t after rest goes right
        ∙ comparison_ends (binary op l r) f rest stops)
