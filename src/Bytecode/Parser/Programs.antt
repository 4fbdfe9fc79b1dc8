-- ===== src/Bytecode/Parser/Programs.antt =====
-- The parser of bytecode-vm/compiler.c on printed statements and programs.
use systems_programming_proj.Prelude.{
  ℕ, zero, suc, ◌+◌, ◌≤◌, Bool, true, List, ◌&&◌, ◌∷◌, ◌≡◌, refl, ltb, leb, lt→ltb, arith,
}
use mathlib.Core.Bool.{and-eq-true_iff}
use systems_programming_proj.Bytecode.Ast.{
  Expr, Stmt, assign, print, while_loop, if_then, Block, done, next,
}
use systems_programming_proj.Bytecode.Parser.{
  Tokens, found, tok_lbrace, comparison_op, additive_op, factor_op, parse_comparison,
  parse_statement, parse_body, body_size, parser,
}
use systems_programming_proj.Bytecode.Parser.Printer.{
  print_expr, expr_fuel, print_stmt, print_body, print_program,
}
use systems_programming_proj.Bytecode.Parser.Atoms.{Ends}
use systems_programming_proj.Bytecode.Parser.Expressions.{parse_comparison-print_expr}

abbrev pub count : Block → ℕ
count done = 0
count (next s b) = suc (count b)

-- Every body, however deep, has at most 128 statements.
unfoldable mutual
  pub fits_stmt : Stmt → Bool
  fits_stmt (assign x e) = true
  fits_stmt (print e) = true
  fits_stmt (while_loop c b) = leb (count b) body_size && fits_block b
  fits_stmt (if_then c b) = leb (count b) body_size && fits_block b

  pub fits_block : Block → Bool
  fits_block done = true
  fits_block (next s b) = fits_stmt s && fits_block b

-- Fuel that is enough to read the tokens back.
unfoldable mutual
  pub stmt_fuel : Stmt → ℕ
  stmt_fuel (assign x e) = 5 + expr_fuel e
  stmt_fuel (print e) = 5 + expr_fuel e
  stmt_fuel (while_loop c b) = (5 + expr_fuel c) + block_fuel b
  stmt_fuel (if_then c b) = (5 + expr_fuel c) + block_fuel b

  pub block_fuel : Block → ℕ
  block_fuel done = 1
  block_fuel (next s b) = (1 + stmt_fuel s) + block_fuel b

stmt-Ends : (s : Stmt) (ts : Tokens) → Ends (print_stmt s ts)
unfolding print_stmt comparison_op additive_op factor_op
stmt-Ends (assign x e) ts = record { no_comparison = refl; no_additive = refl; no_factor = refl }
stmt-Ends (print e) ts = record { no_comparison = refl; no_additive = refl; no_factor = refl }
stmt-Ends (while_loop c b) ts = record {
  no_comparison = refl;
  no_additive = refl;
  no_factor = refl;
}
stmt-Ends (if_then c b) ts = record { no_comparison = refl; no_additive = refl; no_factor = refl }

brace-Ends : (ts : Tokens) → Ends (tok_lbrace ∷ ts)
unfolding comparison_op additive_op factor_op
brace-Ends ts = record { no_comparison = refl; no_additive = refl; no_factor = refl }

body-Ends : (b : Block) (ts : Tokens) → Ends (print_body b ts)
unfolding print_body comparison_op additive_op factor_op
body-Ends done ts = record { no_comparison = refl; no_additive = refl; no_factor = refl }
body-Ends (next s b) ts = stmt-Ends s (print_body b ts)

program-Ends : (b : Block) → Ends (print_program b)
unfolding print_program comparison_op additive_op factor_op
program-Ends done = record { no_comparison = refl; no_additive = refl; no_factor = refl }
program-Ends (next s b) = stmt-Ends s (print_program b)

body_round :
    (s : Stmt) (b : Block) (f k : ℕ) (rest ts : Tokens)
    → ltb k body_size ≡ true
    → parse_statement f (print_stmt s rest) ≡ found (s, rest)
    → parse_body f (suc k) rest ≡ found (b, ts)
    → parse_body (suc f) k (print_stmt s rest) ≡ found (next s b, ts)
unfolding parse_body print_stmt
body_round (assign x e) b f k rest ts room read others = rw read (rw room (rw others refl))
body_round (print e) b f k rest ts room read others = rw read (rw room (rw others refl))
body_round (while_loop c _) b f k rest ts room read others = rw read (rw room (rw others refl))
body_round (if_then c _) b f k rest ts room read others = rw read (rw room (rw others refl))

program_round :
    (s : Stmt) (b : Block) (f : ℕ) (rest : Tokens)
    → parse_statement f (print_stmt s rest) ≡ found (s, rest)
    → parser f rest ≡ found b
    → parser (suc f) (print_stmt s rest) ≡ found (next s b)
unfolding parser print_stmt
program_round (assign x e) b f rest read others = rw read (rw others refl)
program_round (print e) b f rest read others = rw read (rw others refl)
program_round (while_loop c _) b f rest read others = rw read (rw others refl)
program_round (if_then c _) b f rest read others = rw read (rw others refl)

module _ (f : ℕ) (ts : Tokens) where
  assign_round :
      (x : List ℕ) (e : Expr)
      → parse_comparison f (print_expr e ts) ≡ found (e, ts)
      → parse_statement (suc f) (print_stmt (assign x e) ts) ≡ found (assign x e, ts)
  unfolding parse_statement print_stmt
  assign_round x e read = rw read refl

  print_round :
      (e : Expr)
      → parse_comparison f (print_expr e ts) ≡ found (e, ts)
      → parse_statement (suc f) (print_stmt (print e) ts) ≡ found (print e, ts)
  unfolding parse_statement print_stmt
  print_round e read = rw read refl

  module _ (c : Expr) (b : Block)
      (read : parse_comparison f (print_expr c (tok_lbrace ∷ print_body b ts))
        ≡ found (c, tok_lbrace ∷ print_body b ts))
      (others : parse_body f 0 (print_body b ts) ≡ found (b, ts)) where
    while_round :
        parse_statement (suc f) (print_stmt (while_loop c b) ts) ≡ found (while_loop c b, ts)
    unfolding parse_statement print_stmt
    while_round = rw read (rw others refl)

    if_round : parse_statement (suc f) (print_stmt (if_then c b) ts) ≡ found (if_then c b, ts)
    unfolding parse_statement print_stmt
    if_round = rw read (rw others refl)

condition_reads :
    (c : Expr) (b : Block) (f : ℕ) (ts : Tokens)
    → 4 + expr_fuel c ≤ f
    → parse_comparison f (print_expr c (tok_lbrace ∷ print_body b ts))
      ≡ found (c, tok_lbrace ∷ print_body b ts)
condition_reads c b f ts enough =
    parse_comparison-print_expr c f (tok_lbrace ∷ print_body b ts) enough (brace-Ends _)

rbrace_read : (f k : ℕ) (ts : Tokens) → parse_body (suc f) k (print_body done ts) ≡ found (done, ts)
unfolding parse_body print_body
rbrace_read f k ts = refl

no_fuel {ℓ} : {A : Type ℓ} (s : Stmt) → stmt_fuel s ≤ 0 → A
unfolding stmt_fuel
no_fuel (assign x e) h = absurd (omega (arith, h))
no_fuel (print e) h = absurd (omega (arith, h))
no_fuel (while_loop c b) h = absurd (omega (arith, h))
no_fuel (if_then c b) h = absurd (omega (arith, h))

mutual
  unfolding fits_stmt stmt_fuel print_body

  statement_reads :
      (s : Stmt) (fuel : ℕ) (ts : Tokens)
      → fits_stmt s ≡ true
      → stmt_fuel s ≤ fuel
      → Ends ts
      → parse_statement fuel (print_stmt s ts) ≡ found (s, ts)
  statement_reads s zero ts fits enough h = no_fuel s enough
  statement_reads (assign x e) (suc f) ts fits enough h =
      assign_round f ts x e (parse_comparison-print_expr e f ts (omega (arith, enough)) h)
  statement_reads (print e) (suc f) ts fits enough h =
      print_round f ts e (parse_comparison-print_expr e f ts (omega (arith, enough)) h)
  statement_reads (while_loop c b) (suc f) ts fits enough h =
      let (short, inner) = (and-eq-true_iff (leb (count b) body_size) (fits_block b)).0 fits in
      while_round f ts c b (condition_reads c b f ts (omega (arith, enough)))
        (body_reads b 0 f ts inner (ground (arith, short)) (omega (arith, enough)))
  statement_reads (if_then c b) (suc f) ts fits enough h =
      let (short, inner) = (and-eq-true_iff (leb (count b) body_size) (fits_block b)).0 fits in
      if_round f ts c b (condition_reads c b f ts (omega (arith, enough)))
        (body_reads b 0 f ts inner (ground (arith, short)) (omega (arith, enough)))

  body_reads :
      (b : Block) (k fuel : ℕ) (ts : Tokens)
      → fits_block b ≡ true
      → k + count b ≤ body_size
      → block_fuel b ≤ fuel
      → parse_body fuel k (print_body b ts) ≡ found (b, ts)
  body_reads done k zero ts fits short enough = absurd (omega (arith, enough))
  body_reads done k (suc f) ts fits short enough = rbrace_read f k ts
  body_reads (next s b) k zero ts fits short enough = absurd (omega (arith, enough))
  body_reads (next s b) k (suc f) ts fits short enough =
      let (here, rest) = (and-eq-true_iff (fits_stmt s) (fits_block b)).0 fits in
      body_round s b f k (print_body b ts) ts (lt→ltb k body_size (omega (arith, short)))
        (statement_reads s f (print_body b ts) here (omega (arith, enough)) (body-Ends b ts))
        (body_reads b (suc k) f ts rest (omega (arith, short)) (omega (arith, enough)))

program_reads :
    (b : Block) (fuel : ℕ)
    → fits_block b ≡ true
    → block_fuel b ≤ fuel
    → parser fuel (print_program b) ≡ found b
unfolding fits_stmt stmt_fuel print_program parser
program_reads done zero fits enough = absurd (omega (arith, enough))
program_reads done (suc f) fits enough = refl
program_reads (next s b) zero fits enough = absurd (omega (arith, enough))
program_reads (next s b) (suc f) fits enough =
    let (here, rest) = (and-eq-true_iff (fits_stmt s) (fits_block b)).0 fits in
    program_round s b f (print_program b)
      (statement_reads s f (print_program b) here (omega (arith, enough)) (program-Ends b))
      (program_reads b f rest (omega (arith, enough)))

-- The parser reads back every program that is written with each operation in parentheses and with
-- at most 128 statements in each body, when its fuel is the one that `block_fuel` counts or more.
pub parser-print_program :
    (b : Block) (fuel : ℕ)
    → fits_block b ≡ true
    → block_fuel b ≤ fuel
    → parser fuel (print_program b) ≡ found b
parser-print_program b fuel fits enough = program_reads b fuel fits enough
