-- ===== src/Bytecode/Parser/Tests.antt =====
-- The parser of bytecode-vm/compiler.c at the program of its `main`.
use systems_programming_proj.Prelude.{ℕ, ◌∷◌, [], ◌≡◌, refl, arith, true}
use systems_programming_proj.Bytecode.Ast.{
  Name, add, sub, mul, gt, num, ident, binary, assign, print, while_loop, Block, done, next,
}
use systems_programming_proj.Bytecode.Parser.{
  tok_num, tok_star, tok_plus, tok_eof, tok_ident, tok_eq, tok_while, tok_gt, tok_lbrace,
  tok_rbrace, tok_print, tok_minus, Tokens, found, comparison_op, additive_op, factor_op,
  parse_comparison, parser, parse_statement,
}
use systems_programming_proj.Bytecode.Parser.Printer.{print_expr, expr_fuel, print_program}
use systems_programming_proj.Bytecode.Parser.Atoms.{Ends}
use systems_programming_proj.Bytecode.Parser.Programs.{fits_block, block_fuel, parser-print_program}
use systems_programming_proj.Bytecode.Parser.Precedence.{parse_comparison-product}

abbrev x : Name
x = b'x' ∷ []

-- x = 3 ; while x > 0 { print x  x = x - 1 }
abbrev countdown : Block
countdown = next (assign x (num 3)) (
    next
      (while_loop (binary gt (ident x) (num 0))
        (next (print (ident x)) (next (assign x (binary sub (ident x) (num 1))) done)))
      done)

countdown-fits : fits_block countdown ≡ true
unfolding fits_block
countdown-fits = refl

countdown-fuel : block_fuel countdown ≡ 56
unfolding block_fuel expr_fuel
countdown-fuel = refl

-- The tokens of the text in `main`, without parentheses.
abbrev source_tokens : Tokens
source_tokens =
    tok_ident x
    ∷ tok_eq
    ∷ tok_num 3
    ∷ tok_while
    ∷ tok_ident x
    ∷ tok_gt
    ∷ tok_num 0
    ∷ tok_lbrace
    ∷ tok_print
    ∷ tok_ident x
    ∷ tok_ident x
    ∷ tok_eq
    ∷ tok_ident x
    ∷ tok_minus
    ∷ tok_num 1
    ∷ tok_rbrace
    ∷ tok_eof
    ∷ []

source_parsed : parser 60 source_tokens ≡ found countdown
unfolding parser parse_statement parse_comparison comparison_op additive_op factor_op
source_parsed = refl

parser-print_program_example : parser 60 (print_program countdown) ≡ found countdown
parser-print_program_example =
    parser-print_program countdown 60 countdown-fits (omega (arith, countdown-fuel))

eof-Ends : Ends (tok_eof ∷ [])
unfolding comparison_op additive_op factor_op
eof-Ends = record { no_comparison = refl; no_additive = refl; no_factor = refl }

num_fuel : (n : ℕ) → expr_fuel (num n) ≡ 1
unfolding expr_fuel
num_fuel n = refl

parse_comparison-product_example :
    parse_comparison 11 (
      print_expr
        (num 2)
        (tok_star ∷ print_expr (num 3) (tok_plus ∷ print_expr (num 4) (tok_eof ∷ []))))
    ≡ found (binary mul (num 2) (binary add (num 3) (num 4)), tok_eof ∷ [])
parse_comparison-product_example =
    parse_comparison-product (num 2) (num 3) (num 4) 11 (tok_eof ∷ [])
      (omega (arith, num_fuel 2, num_fuel 3, num_fuel 4)) eof-Ends
