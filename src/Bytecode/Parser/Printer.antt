-- ===== src/Bytecode/Parser/Printer.antt =====
-- The trees of bytecode-vm/compiler.c written out as tokens, each operation in parentheses.
use systems_programming_proj.Prelude.{ℕ, ◌+◌, [], ◌∷◌}
use systems_programming_proj.Bytecode.Ast.{
  BinOp, add, sub, mul, div, gt, lt, eqeq, Expr, num, ident, binary, Stmt, assign, print,
  while_loop, if_then, Block, done, next,
}
use systems_programming_proj.Bytecode.Parser.{
  Token, tok_num, tok_ident, tok_plus, tok_minus, tok_star, tok_slash, tok_eq, tok_gt, tok_lt,
  tok_print, tok_while, tok_if, tok_lbrace, tok_rbrace, tok_lparen, tok_rparen, tok_eqeq, tok_eof,
  Tokens,
}

abbrev pub op_token : BinOp → Token
op_token add = tok_plus
op_token sub = tok_minus
op_token mul = tok_star
op_token div = tok_slash
op_token gt = tok_gt
op_token lt = tok_lt
op_token eqeq = tok_eqeq

-- Each printer puts its tokens in front of those that follow.
unfoldable pub print_expr : Expr → Tokens → Tokens
print_expr (num n) ts = tok_num n ∷ ts
print_expr (ident x) ts = tok_ident x ∷ ts
print_expr (binary op l r) ts =
    tok_lparen ∷ print_expr l (op_token op ∷ print_expr r (tok_rparen ∷ ts))

unfoldable mutual
  pub print_stmt : Stmt → Tokens → Tokens
  print_stmt (assign x e) ts = tok_ident x ∷ tok_eq ∷ print_expr e ts
  print_stmt (print e) ts = tok_print ∷ print_expr e ts
  print_stmt (while_loop c b) ts = tok_while ∷ print_expr c (tok_lbrace ∷ print_body b ts)
  print_stmt (if_then c b) ts = tok_if ∷ print_expr c (tok_lbrace ∷ print_body b ts)

  -- A body with its closing brace.
  pub print_body : Block → Tokens → Tokens
  print_body done ts = tok_rbrace ∷ ts
  print_body (next s b) ts = print_stmt s (print_body b ts)

unfoldable pub print_program : Block → Tokens
print_program done = tok_eof ∷ []
print_program (next s b) = print_stmt s (print_program b)

-- Fuel that is enough to read the tokens back.
unfoldable pub expr_fuel : Expr → ℕ
expr_fuel (num n) = 1
expr_fuel (ident x) = 1
expr_fuel (binary op l r) = 12 + (expr_fuel l + expr_fuel r)
