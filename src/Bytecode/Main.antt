-- ===== src/Bytecode/Main.antt =====
-- `print_tokens` and `main` of bytecode-vm/compiler.c: from a source text to the run of the machine.
mod Tests
use mathlib.Core.Path.{subst}
use systems_programming_proj.Prelude.{
  ℕ, zero, suc, ◌+◌, ◌/◌, ◌%◌, Bool, true, false, Option, some, List, [], ◌∷◌, ◌++◌, ltb,
  if◌then◌else◌, ◌≡◌, refl, sym, ap, ◌∙◌, ◌<◌, ◌≤◌,
}
use systems_programming_proj.Bytecode.Parser.{
  Token, tok_num, tok_ident, tok_plus, tok_minus, tok_star, tok_slash, tok_eq, tok_gt, tok_lt,
  tok_print, tok_while, tok_if, tok_lbrace, tok_rbrace, tok_lparen, tok_rparen, tok_eqeq, tok_eof,
  Tokens, Fault, Parsed, found, fault, exhausted, parser,
}
use systems_programming_proj.Bytecode.Ast.{Name, Block}
use systems_programming_proj.Bytecode.Lexer.{lexer}
use systems_programming_proj.Bytecode.Codegen.{generate_byte}
use systems_programming_proj.Bytecode.Vm.{Vm, vm_init, vm_run, Outcome, halted}
use systems_programming_proj.Bytecode.Scope.{scoped_block, small_block}
use systems_programming_proj.Bytecode.Semantics.{Store, store, exec_block, finished}
use systems_programming_proj.Bytecode.Codegen.Layout.{size_block}
use systems_programming_proj.Bytecode.Codegen.Backpatch.{final_names}
use systems_programming_proj.Bytecode.Refine.Step.{values}
use systems_programming_proj.Bytecode.Correct.Program.{
  Delivers, halts, all_zero, generate_byte-Delivers,
}
use systems_programming_proj.Bytecode.Parser.Printer.{print_program}
use systems_programming_proj.Bytecode.Parser.Programs.{fits_block, block_fuel, parser-print_program}

-- `%d` for a number that is not negative, of at most so many digits.
unfoldable pub decimal : (digits n : ℕ) → List ℕ
decimal zero n = []
decimal (suc digits) n =
    let front = decimal digits (n / 10) in
    if ltb n 10 then (b'0' + n) ∷ [] else front ++ (b'0' + n % 10) ∷ []

unfoldable pub token_text : Token → List ℕ
token_text (tok_num n) = (b'N' ∷ b'U' ∷ b'M' ∷ b'(' ∷ []) ++ decimal 10 n ++ (b')' ∷ b' ' ∷ [])
token_text (tok_ident name) =
    (b'I' ∷ b'D' ∷ b'E' ∷ b'N' ∷ b'T' ∷ b'(' ∷ []) ++ name ++ (b')' ∷ b' ' ∷ [])
token_text tok_plus = (b'P' ∷ b'L' ∷ b'U' ∷ b'S' ∷ b' ' ∷ [])
token_text tok_minus = (b'M' ∷ b'I' ∷ b'N' ∷ b'U' ∷ b'S' ∷ b' ' ∷ [])
token_text tok_star = (b'S' ∷ b'T' ∷ b'A' ∷ b'R' ∷ b' ' ∷ [])
token_text tok_slash = (b'S' ∷ b'L' ∷ b'A' ∷ b'S' ∷ b'H' ∷ b' ' ∷ [])
token_text tok_eq = (b'E' ∷ b'Q' ∷ b' ' ∷ [])
token_text tok_gt = (b'G' ∷ b'T' ∷ b' ' ∷ [])
token_text tok_lt = (b'L' ∷ b'T' ∷ b' ' ∷ [])
token_text tok_print = (b'P' ∷ b'R' ∷ b'I' ∷ b'N' ∷ b'T' ∷ b' ' ∷ [])
token_text tok_while = (b'W' ∷ b'H' ∷ b'I' ∷ b'L' ∷ b'E' ∷ b' ' ∷ [])
token_text tok_if = (b'I' ∷ b'F' ∷ b' ' ∷ [])
token_text tok_lbrace = (b'L' ∷ b'B' ∷ b'R' ∷ b'A' ∷ b'C' ∷ b'E' ∷ b' ' ∷ [])
token_text tok_rbrace = (b'R' ∷ b'B' ∷ b'R' ∷ b'A' ∷ b'C' ∷ b'E' ∷ b' ' ∷ [])
token_text tok_lparen = (b'L' ∷ b'P' ∷ b'A' ∷ b'R' ∷ b'E' ∷ b'N' ∷ b' ' ∷ [])
token_text tok_rparen = (b'R' ∷ b'P' ∷ b'A' ∷ b'R' ∷ b'E' ∷ b'N' ∷ b' ' ∷ [])
token_text tok_eqeq = (b'E' ∷ b'Q' ∷ b'E' ∷ b'Q' ∷ b' ' ∷ [])
token_text tok_eof = (b'E' ∷ b'O' ∷ b'F' ∷ [])

-- The loop, which includes TOK_EOF, and the end of the line.
unfoldable pub print_tokens : Tokens → List ℕ
print_tokens [] = (10 ∷ [])
print_tokens (t ∷ ts) = token_text t ++ print_tokens ts

-- The line of tokens and the run, with bounds for the lexer, the parser and the machine; what a stage
-- does not return, the next does not see.
unfoldable pub run_parsed : (rounds : ℕ) → Vm → Tokens → Parsed Block → Parsed (List ℕ × Outcome)
run_parsed rounds vm tokens (found block) =
    found (print_tokens tokens, vm_run rounds (vm_init (some (generate_byte block)) vm))
run_parsed rounds vm tokens (fault e) = fault e
run_parsed rounds vm tokens exhausted = exhausted

unfoldable pub run_lexed : (calls rounds : ℕ) → Vm → Parsed Tokens → Parsed (List ℕ × Outcome)
run_lexed calls rounds vm (found tokens) = run_parsed rounds vm tokens (parser calls tokens)
run_lexed calls rounds vm (fault e) = fault e
run_lexed calls rounds vm exhausted = exhausted

-- `main`, with its text and the memory of the machine as arguments.
unfoldable pub run_source :
    (steps calls rounds : ℕ) → (source : List ℕ) → Vm → Parsed (List ℕ × Outcome)
run_source steps calls rounds source vm = run_lexed calls rounds vm (lexer steps source)

printed :
    {code : List ℕ} {names : List Name} {vm : Vm} {st : Store} (tokens : Tokens) (b : Block)
    → code ≡ generate_byte b
    → Delivers code names vm (finished st)
    → (rounds : ℕ) × ((vm' : Vm) × ((run_parsed rounds vm tokens (found b)
            ≡ found (print_tokens tokens, halted vm'))
          × (values vm'.out ≡ st.out)))
unfolding run_parsed
printed {vm = vm} tokens b e (halts rounds vm' runs out _) = (
  rounds,
  (
    vm',
    (
      ap (λ c. found (print_tokens tokens, vm_run rounds (vm_init (some c) vm))) (sym e)
          ∙ ap (λ o. found (print_tokens tokens, o)) runs,
      out,
    ),
  ),
)

-- From the tokens to the output: a program that the meaning of trees says to finish, whose variables
-- are assigned further up in the text, whose literals fit a byte, with at most 128 statements in a
-- body and with code of at most 256 bytes. When its tokens, written with each operation in
-- parentheses, come from the lexer, the parser, the code generator and the machine together end with
-- the machine halted and the values of the program printed, for some number of rounds.
pub run_lexed-values :
    (depth calls : ℕ) (b : Block) (st : Store) (vm : Vm)
    → vm.out ≡ []
    → scoped_block b [] ≡ true
    → small_block b ≡ true
    → size_block b < 256
    → fits_block b ≡ true
    → block_fuel b ≤ calls
    → exec_block depth b (store all_zero []) ≡ finished st
    → (rounds : ℕ) × ((vm' : Vm) × ((run_lexed calls rounds vm (found (print_program b))
            ≡ found (print_tokens (print_program b), halted vm'))
          × (values vm'.out ≡ st.out)))
unfolding run_lexed
run_lexed-values depth calls b st vm quiet scoped small short fits enough ends =
    let delivers =
      subst (Delivers (generate_byte b) (final_names b) vm) ends
        (generate_byte-Delivers depth b vm quiet scoped small short) in
    let (rounds, (vm', (runs, out))) = printed (print_program b) b refl delivers in
    (
      rounds,
      (
        vm',
        (
          ap (run_parsed rounds vm (print_program b)) (parser-print_program b calls fits enough)
              ∙ runs,
          out,
        ),
      ),
    )
