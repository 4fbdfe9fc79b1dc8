-- ===== src/Bytecode/Lexer/Tests.antt =====
-- The lexer of bytecode-vm/compiler.c at the text in its `main`, and at a text without a blank.
use systems_programming_proj.Prelude.{ℕ, List, [], ◌∷◌, ◌≡◌, refl, arith, length, bytes_eq}
use systems_programming_proj.Bytecode.Parser.{
  tok_num, tok_ident, tok_eq, tok_while, tok_gt, tok_lbrace, tok_rbrace, tok_print, tok_minus,
  tok_eof, found, fault, undefined,
}
use systems_programming_proj.Bytecode.Lexer.{
  consume, atoi_from, word_of, number_of, lookup, equals, symbol, lex_one, lex, lexer,
}
use systems_programming_proj.Bytecode.Lexer.Bounds.{Settled, AtMost, lex-Settled}

abbrev main_text : List ℕ
main_text =
    b'x' ∷ b' ' ∷ b'=' ∷ b' ' ∷ b'3' ∷ 10 ∷ b'w' ∷ b'h' ∷ b'i' ∷ b'l' ∷ b'e' ∷ b' ' ∷ b'x' ∷ b' '
    ∷ b'>' ∷ b' ' ∷ b'0' ∷ b' ' ∷ b'{' ∷ 10 ∷ b'p' ∷ b'r' ∷ b'i' ∷ b'n' ∷ b't' ∷ b' ' ∷ b'x' ∷ 10
    ∷ b'x' ∷ b' ' ∷ b'=' ∷ b' ' ∷ b'x' ∷ b' ' ∷ b'-' ∷ b' ' ∷ b'1' ∷ 10 ∷ b'}' ∷ []

main_lexed :
    lexer 50 main_text
    ≡ found (
        tok_ident (b'x' ∷ [])
        ∷ tok_eq
        ∷ tok_num 3
        ∷ tok_while
        ∷ tok_ident (b'x' ∷ [])
        ∷ tok_gt
        ∷ tok_num 0
        ∷ tok_lbrace
        ∷ tok_print
        ∷ tok_ident (b'x' ∷ [])
        ∷ tok_ident (b'x' ∷ [])
        ∷ tok_eq
        ∷ tok_ident (b'x' ∷ [])
        ∷ tok_minus
        ∷ tok_num 1
        ∷ tok_rbrace
        ∷ tok_eof
        ∷ [])
unfolding lexer lex lex_one consume word_of number_of atoi_from symbol lookup equals bytes_eq
main_lexed = refl

-- Each of the two bytes is a token, and TOK_EOF is written behind the array.
no_blank : lexer 9 (b'(' ∷ b'1' ∷ []) ≡ fault undefined
unfolding lexer lex lex_one consume word_of number_of atoi_from symbol lookup equals
no_blank = refl

lex-Settled_example : Settled (AtMost (length main_text)) (lex 50 main_text)
lex-Settled_example = lex-Settled 50 main_text (omega arith)
