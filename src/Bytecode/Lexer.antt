-- ===== src/Bytecode/Lexer.antt =====
-- `lexer` of bytecode-vm/compiler.c. The source text is the list of its bytes before the NUL. A word
-- or a number that does not fit its buffer of 32 bytes, a number that does not fit an `int`, and a
-- write behind the token array, are undefined.
pub mod Bounds
mod Tests
use systems_programming_proj.Prelude.{
  ℕ, zero, suc, ◌+◌, ◌-◌, ◌*◌, Bool, true, false, ◌&&◌, ◌||◌, Option, none, some, List, [], ◌∷◌,
  ◌++◌, length, ltb, leb, ◌==◌, if◌then◌else◌, bytes_eq,
}
use systems_programming_proj.Bytecode.Parser.{
  Token, tok_num, tok_ident, tok_plus, tok_minus, tok_star, tok_slash, tok_eq, tok_gt, tok_lt,
  tok_print, tok_while, tok_if, tok_lbrace, tok_rbrace, tok_lparen, tok_rparen, tok_eqeq, tok_eof,
  Tokens, Fault, exited, undefined, Parsed, found, fault, exhausted, ◌>>=◌,
}

abbrev pub between : (low high c : ℕ) → Bool
between low high c = leb low c && leb c high

-- <ctype.h> in the C locale.
abbrev pub isalpha : ℕ → Bool
isalpha c = between 65 90 c || between 97 122 c

abbrev pub isdigit : ℕ → Bool
isdigit c = between 48 57 c

abbrev pub isalnum : ℕ → Bool
isalnum c = isalpha c || isdigit c

abbrev pub isspace : ℕ → Bool
isspace c = (c == 32) || between 9 13 c

-- A loop that consumes the characters that pass a test: those, and the rest.
unfoldable pub consume : (ℕ → Bool) → List ℕ → List ℕ × List ℕ
consume test [] = ([], [])
consume test (c ∷ cs) =
    let (taken, rest) = consume test cs in if test c then (c ∷ taken, rest) else ([], c ∷ cs)

unfoldable pub atoi_from : ℕ → List ℕ → ℕ
atoi_from acc [] = acc
atoi_from acc (c ∷ cs) = atoi_from (acc * 10 + (c - 48)) cs

abbrev pub atoi : List ℕ → ℕ
atoi cs = atoi_from 0 cs

abbrev pub buffer_size : ℕ
buffer_size = 32

abbrev pub int_max : ℕ
int_max = 2147483647

abbrev pub word_token : List ℕ → Token
word_token word =
    if bytes_eq word (b'p' ∷ b'r' ∷ b'i' ∷ b'n' ∷ b't' ∷ [])
    then tok_print
    else (if bytes_eq word (b'w' ∷ b'h' ∷ b'i' ∷ b'l' ∷ b'e' ∷ [])
        then tok_while
        else (if bytes_eq word (b'i' ∷ b'f' ∷ []) then tok_if else tok_ident word))

-- The token that the consumed characters make, if they and their NUL fit the buffer.
unfoldable pub word_of : List ℕ → Parsed Token
word_of word = if ltb (length word) buffer_size then found (word_token word) else fault undefined

unfoldable pub number_of : List ℕ → Parsed Token
number_of digits =
    if ltb (length digits) buffer_size && leb (atoi digits) int_max
    then found (tok_num (atoi digits))
    else fault undefined

-- The cases of the `switch` but '='.
abbrev pub symbols : List (ℕ × Token)
symbols =
    (b'+', tok_plus)
    ∷ (b'-', tok_minus)
    ∷ (b'*', tok_star)
    ∷ (b'/', tok_slash)
    ∷ (b'>', tok_gt)
    ∷ (b'<', tok_lt)
    ∷ (b'(', tok_lparen)
    ∷ (b')', tok_rparen)
    ∷ (b'{', tok_lbrace)
    ∷ (b'}', tok_rbrace)
    ∷ []

unfoldable pub lookup : ℕ → List (ℕ × Token) → Option Token
lookup c [] = none
lookup c ((d, t) ∷ table) = if c == d then some t else lookup c table

-- The case '=', which looks at the next character.
unfoldable pub equals : List ℕ → Token × List ℕ
equals [] = (tok_eq, [])
equals (c ∷ rest) = if c == b'=' then (tok_eqeq, rest) else (tok_eq, c ∷ rest)

-- The `switch`: the token and the text behind it.
unfoldable pub symbol : ℕ → List ℕ → Parsed (Token × List ℕ)
symbol c rest =
    if c == b'='
    then found (equals rest)
    else (elim (lookup c symbols) [ none ↦ fault exited | some t ↦ found (t, rest) ])

-- One round of the loop, which begins at a character: the token, if it makes one, and the text
-- behind it.
unfoldable pub lex_one : ℕ → List ℕ → Parsed (Option Token × List ℕ)
lex_one c cs =
    let (letters, behind_word) = consume isalnum cs in
    let (digits, behind_number) = consume isdigit cs in
    if isalpha c
    then (do t ← word_of (c ∷ letters); found (some t, behind_word))
    else (if isdigit c
        then (do t ← number_of (c ∷ digits); found (some t, behind_number))
        else (if isspace c
            then found (none, cs)
            else (do (t, rest) ← symbol c cs; found (some t, rest))))

abbrev pub put : Option Token → Tokens → Tokens
put none ts = ts
put (some t) ts = t ∷ ts

-- Each round costs a unit of fuel.
unfoldable pub lex : ℕ → List ℕ → Parsed Tokens
lex zero cs = exhausted
lex (suc fuel) [] = found []
lex (suc fuel) (c ∷ cs) = do (made, rest) ← lex_one c cs; ts ← lex fuel rest; found (put made ts)

-- The array has as many entries as the text has bytes, and TOK_EOF needs one.
unfoldable pub lexer : ℕ → List ℕ → Parsed Tokens
lexer fuel source = do
  ts ← lex fuel source
  if ltb (length ts) (length source) then found (ts ++ tok_eof ∷ []) else fault undefined
