-- ===== src/Bytecode/Codegen/Layout.antt =====
-- The bytecode of a tree written down directly: the slot of every variable and the target of every
-- jump known in advance, with no placeholder and no table under construction.
use systems_programming_proj.Prelude.{
  ℕ, ◌+◌, ◌≤◌, ◌≡◌, refl, List, [], ◌∷◌, ◌++◌, arith, length, length-append,
}
use systems_programming_proj.Bytecode.OpCode.{OpCode, code_of}
use systems_programming_proj.Bytecode.Ast.{
  Name, Expr, num, ident, binary, Stmt, assign, print, while_loop, if_then, Block, done, next,
}
use systems_programming_proj.Bytecode.Codegen.{byte, op_code}

-- How many bytes an expression, a statement and a block take.
unfoldable pub size_expr : Expr → ℕ
size_expr (num n) = 2
size_expr (ident x) = 2
size_expr (binary op l r) = size_expr l + size_expr r + 1

unfoldable mutual
  pub size_stmt : Stmt → ℕ
  size_stmt (assign x e) = size_expr e + 2
  size_stmt (print e) = size_expr e + 1
  size_stmt (if_then c b) = size_expr c + 2 + size_block b
  size_stmt (while_loop c b) = size_expr c + 4 + size_block b

  pub size_block : Block → ℕ
  size_block done = 0
  size_block (next s b) = size_stmt s + size_block b

pub size_expr-pos : (e : Expr) → 2 ≤ size_expr e
unfolding size_expr
size_expr-pos (num n) = omega arith
size_expr-pos (ident x) = omega arith
size_expr-pos (binary op l r) = omega (arith, size_expr-pos l)

module _ (slot : Name → ℕ) where
  unfoldable pub code_expr : Expr → List ℕ
  code_expr (num n) = code_of OpCode.push ∷ byte n ∷ []
  code_expr (ident x) = code_of OpCode.load ∷ byte (slot x) ∷ []
  code_expr (binary op l r) = code_expr l ++ (code_expr r ++ byte (code_of (op_code op)) ∷ [])

  -- The code of a statement whose first byte stands at address `p`.
  unfoldable mutual
    pub code_stmt : ℕ → Stmt → List ℕ
    code_stmt p (assign x e) = code_expr e ++ byte (code_of OpCode.store) ∷ byte (slot x) ∷ []
    code_stmt p (print e) = code_expr e ++ byte (code_of OpCode.print) ∷ []
    code_stmt p (if_then c b) =
        let first = p + size_expr c + 2 in
        code_expr c
        ++ byte (code_of OpCode.jmp_if_false) ∷ byte (first + size_block b) ∷ code_block first b
    code_stmt p (while_loop c b) =
        let first = p + size_expr c + 2 in
        code_expr c
        ++ byte (code_of OpCode.jmp_if_false)
          ∷ byte (first + size_block b + 2)
          ∷ (code_block first b ++ byte (code_of OpCode.jmp) ∷ byte p ∷ [])

    pub code_block : ℕ → Block → List ℕ
    code_block p done = []
    code_block p (next s b) = code_stmt p s ++ code_block (p + size_stmt s) b

  pub length-code_expr : (e : Expr) → length (code_expr e) ≡ size_expr e
  unfolding code_expr size_expr
  length-code_expr (num n) = refl
  length-code_expr (ident x) = refl
  length-code_expr (binary op l r) =
      let tail = byte (code_of (op_code op)) ∷ [] in
      omega (
        arith,
        length-append (code_expr l) (code_expr r ++ tail),
        length-append (code_expr r) tail,
        length-code_expr l,
        length-code_expr r,
      )

  mutual
    unfolding code_stmt size_stmt

    length-code_stmt_at : (s : Stmt) (p : ℕ) → length (code_stmt p s) ≡ size_stmt s
    length-code_stmt_at (assign x e) p = omega (
      arith,
      length-append (code_expr e) (byte (code_of OpCode.store) ∷ byte (slot x) ∷ []),
      length-code_expr e,
    )
    length-code_stmt_at (print e) p =
        omega (
          arith,
          length-append (code_expr e) (byte (code_of OpCode.print) ∷ []),
          length-code_expr e,
        )
    length-code_stmt_at (if_then c b) p =
        let first = p + size_expr c + 2 in
        omega (
          arith,
          length-append (code_expr c) (
              byte (code_of OpCode.jmp_if_false)
              ∷ byte (first + size_block b)
              ∷ code_block first b),
          length-code_expr c,
          length-code_block_at b first,
        )
    length-code_stmt_at (while_loop c b) p =
        let first = p + size_expr c + 2 in
        let back = byte (code_of OpCode.jmp) ∷ byte p ∷ [] in
        omega (
          arith,
          length-append (code_expr c) (
              byte (code_of OpCode.jmp_if_false)
              ∷ byte (first + size_block b + 2)
              ∷ (code_block first b ++ back)),
          length-append (code_block first b) back,
          length-code_expr c,
          length-code_block_at b first,
        )

    length-code_block_at : (b : Block) (p : ℕ) → length (code_block p b) ≡ size_block b
    length-code_block_at done p = refl
    length-code_block_at (next s b) p = omega (
      arith,
      length-append (code_stmt p s) (code_block (p + size_stmt s) b),
      length-code_stmt_at s p,
      length-code_block_at b (p + size_stmt s),
    )

  pub length-code_stmt : (p : ℕ) (s : Stmt) → length (code_stmt p s) ≡ size_stmt s
  length-code_stmt p s = length-code_stmt_at s p

  pub length-code_block : (p : ℕ) (b : Block) → length (code_block p b) ≡ size_block b
  length-code_block p b = length-code_block_at b p
