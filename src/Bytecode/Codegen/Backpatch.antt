-- ===== src/Bytecode/Codegen/Backpatch.antt =====
-- `walk` (bytecode-vm/compiler.c) with its growing table and its placeholders writes the bytes of
-- the layout in which all slots and all addresses are known in advance.
use mathlib.Core.Bool.{and-eq-true_iff}
use mathlib.Core.List.{append_assoc, append-nil}
use systems_programming_proj.Prelude.{
  ℕ, ◌+◌, ◌≤◌, ◌≡◌, refl, ◌∙◌, sym, ap, inl, inr, Option-cases, none, some, List, [], ◌∷◌, ◌++◌,
  true, arith, length, length-append, set, set-append,
}
use systems_programming_proj.Bytecode.OpCode.{code_of}
use systems_programming_proj.Bytecode.OpCode
use systems_programming_proj.Bytecode.Ast.{
  Name, Expr, num, ident, binary, Stmt, assign, print, while_loop, if_then, Block, done, next,
}
use systems_programming_proj.Bytecode.Scope.{
  member, nonempty, scoped_expr, scope_stmt, scope_block, scoped_stmt, scoped_block,
}
use systems_programming_proj.Bytecode.Codegen.{
  Gen, byte, emit, find, load_slot, store_slot, walk_expr, patch, walk, walk_block, initial,
  generate_byte,
}
use systems_programming_proj.Bytecode.Codegen.Table.{find-set_self}
use systems_programming_proj.Bytecode.Codegen.Layout.{
  size_expr, size_stmt, size_block, code_expr, code_stmt, code_block, length-code_expr,
  length-code_stmt, length-code_block,
}
use systems_programming_proj.Bytecode.Codegen.Grow.{
  walk_expr-SameTable, length-emit, lengths, length-walk_block, length-walk_block-le,
}
use systems_programming_proj.Bytecode.Codegen.Keeps.{
  walk_expr-Grown, emit-Grown, branch-Grown, walk-Grown, walk_block-Grown, initial-IsTable,
}
use systems_programming_proj.Bytecode.Codegen.Extension.{IsTable, Extends, Covers, Grown}

-- The slot that a finished table gives to a name.
unfoldable pub slot : List Name → Name → ℕ
slot names x = elim (find x names) [ none ↦ 0 | some i ↦ i ]

pub slot-find : (names : List Name) (x : Name) (i : ℕ) → find x names ≡ some i → slot names x ≡ i
unfolding slot
slot-find names x i h = rw (h, slot)

bytes-emit : (b : ℕ) (g : Gen) → (emit b g).bytes ≡ g.bytes ++ byte b ∷ []
unfolding emit
bytes-emit b g = refl

names-emit : (b : ℕ) (g : Gen) → (emit b g).names ≡ g.names
unfolding emit
names-emit b g = refl

names-patch : (i : ℕ) (g : Gen) → (patch i g).names ≡ g.names
unfolding patch
names-patch i g = refl

-- The placeholder behind `xs` receives the length of the code.
patch-bytes :
    (g : Gen) (xs ys : List ℕ) (b : ℕ)
    → g.bytes ≡ xs ++ b ∷ ys
    → (patch (length xs) g).bytes ≡ xs ++ byte (length g.bytes) ∷ ys
unfolding patch
patch-bytes g xs ys b h =
    ap (λ l. set l (length xs) (byte (length g.bytes))) h ∙ set-append xs ys b _

module _ (final : List Name) where
  walk_expr-code :
      (e : Expr) (scope : List Name) (g : Gen)
      → IsTable g
      → Covers scope g.names
      → scoped_expr scope e ≡ true
      → Extends g.names final
      → (walk_expr e g).bytes ≡ g.bytes ++ code_expr (slot final) e
  unfolding walk_expr code_expr scoped_expr load_slot code_of
  walk_expr-code (num n) scope g t c h ext = simp (bytes-emit, append_assoc)
  walk_expr-code (ident x) scope g t c h ext =
      let (nx, (i, found)) = c x h in
      let same = slot-find final x i (ext x i nx found) in
      simp (found, bytes-emit, same, append_assoc)
  walk_expr-code (binary op l r) scope g t c h ext =
      let (hl, hr) = (and-eq-true_iff (scoped_expr scope l) (scoped_expr scope r)).0 h in
      let left = walk_expr-Grown l t c in
      let same = (walk_expr-SameTable l g).names in
      let first = walk_expr-code l scope g t c hl ext in
      let second = walk_expr-code r scope (walk_expr l g) left.table left.covers hr (rw same ext) in
      simp (bytes-emit, second, first, append_assoc)

  -- Through the condition of an `if` or a `while`, its jump and the placeholder.
  branch-code :
      (cond : Expr) (scope : List Name) (g : Gen)
      → IsTable g
      → Covers scope g.names
      → scoped_expr scope cond ≡ true
      → Extends g.names final
      → (emit (code_of OpCode.jmp_if_false) (walk_expr cond g)).bytes
        ≡ g.bytes ++ (code_expr (slot final) cond ++ byte (code_of OpCode.jmp_if_false) ∷ [])
  branch-code cond scope g t c h ext =
      simp (bytes-emit, walk_expr-code cond scope g t c h ext, append_assoc)

  store-code :
      (x : Name) (g : Gen)
      → IsTable g
      → g.count ≤ 255
      → (nonempty x ≡ true)
      → Extends (store_slot x (find x g.names) g).names final
      → (store_slot x (find x g.names) g).bytes ≡ g.bytes ++ byte (slot final x) ∷ []
  unfolding store_slot emit
  store-code x g t few nx ext = elim (Option-cases (find x g.names)) [
    | inl e ↦
        let found = find-set_self x g.names g.count e (omega (arith, t.room)) in
        let same = slot-find final x g.count ((rw e at ext) x g.count nx found) in simp (e, same)
    | inr (i, e) ↦ let same = slot-find final x i ((rw e at ext) x i nx e) in simp (e, same)
  ]

  -- A jump over the code `body` that follows its placeholder, patched once the code is complete.
  patched :
      (g₁ g₂ : Gen) (body : List ℕ)
      → g₂.bytes ≡ (emit 0 g₁).bytes ++ body
      → (patch (length g₁.bytes) g₂).bytes ≡ g₁.bytes ++ byte (length g₂.bytes) ∷ body
  patched g₁ g₂ body h = patch-bytes g₂ g₁.bytes body 0 (h ∙ simp (bytes-emit, append_assoc))

  length-branch :
      (cond : Expr) (g : Gen)
      → (emit (code_of OpCode.jmp_if_false) (walk_expr cond g)).bytes
        ≡ g.bytes ++ (code_expr (slot final) cond ++ byte (code_of OpCode.jmp_if_false) ∷ [])
      → length (emit 0 (emit (code_of OpCode.jmp_if_false) (walk_expr cond g))).bytes
        ≡ length g.bytes + size_expr cond + 2
  length-branch cond g h = omega (
    arith,
    length-emit 0 (emit (code_of OpCode.jmp_if_false) (walk_expr cond g)),
    ap length h,
    length-append g.bytes (code_expr (slot final) cond ++ byte (code_of OpCode.jmp_if_false) ∷ []),
    length-append (code_expr (slot final) cond) (byte (code_of OpCode.jmp_if_false) ∷ []),
    length-code_expr (slot final) cond,
  )

  branch-names :
      (cond : Expr) (g : Gen)
      → (emit 0 (emit (code_of OpCode.jmp_if_false) (walk_expr cond g))).names ≡ g.names
  branch-names cond g = simp (names-emit, (walk_expr-SameTable cond g).names)

  -- The code of a body, and the address behind it.
  body-code :
      (cond : Expr) (b : Block) (g : Gen)
      → let g₁ = emit (code_of OpCode.jmp_if_false) (walk_expr cond g) in
        let first = length g.bytes + size_expr cond + 2 in
        g₁.bytes
          ≡ g.bytes ++ (code_expr (slot final) cond ++ byte (code_of OpCode.jmp_if_false) ∷ [])
        → (walk_block b (emit 0 g₁)).bytes
          ≡ (emit 0 g₁).bytes ++ code_block (slot final) (length (emit 0 g₁).bytes) b
        → ((walk_block b (emit 0 g₁)).bytes ≡ (emit 0 g₁).bytes ++ code_block (slot final) first b)
          × (length (walk_block b (emit 0 g₁)).bytes ≡ first + size_block b)
  body-code cond b g head body =
      let n = length-branch cond g head in
      let placed = rw n at body in
      (
        placed,
        omega (
          arith,
          n,
          ap length placed,
          length-append (emit 0 (emit (code_of OpCode.jmp_if_false) (walk_expr cond g))).bytes
              (code_block (slot final) (length g.bytes + size_expr cond + 2) b),
          length-code_block (slot final) (length g.bytes + size_expr cond + 2) b,
        ),
      )

  mutual
    unfolding walk code_stmt scope_stmt scoped_stmt size_stmt

    walk-code_from :
        (s : Stmt) (scope : List Name) (g : Gen)
        → IsTable g
        → Covers scope g.names
        → scoped_stmt s scope ≡ true
        → length (walk s g).bytes ≤ 256
        → Extends g.names final
        → Extends (walk s g).names final
        → (walk s g).bytes ≡ g.bytes ++ code_stmt (slot final) (length g.bytes) s
    walk-code_from (assign x e) scope g t c h short ext₀ ext =
        let (he, nx) = (and-eq-true_iff (scoped_expr scope e) (nonempty x)).0 h in
        let grown = emit-Grown (code_of OpCode.store) (walk_expr-Grown e t c) in
        let few = grown.table.few in
        let stored =
          store-code x (emit (code_of OpCode.store) (walk_expr e g)) grown.table (omega lengths) nx
            ext in
        simp (stored, bytes-emit, walk_expr-code e scope g t c he ext₀, append_assoc)
    walk-code_from (print e) scope g t c h short ext₀ ext =
        simp (bytes-emit, walk_expr-code e scope g t c h ext₀, append_assoc)
    walk-code_from (if_then cond b) scope g t c h short ext₀ ext =
        let (hc, hb) = (and-eq-true_iff (scoped_expr scope cond) (scoped_block b scope)).0 h in
        let g₁ = emit (code_of OpCode.jmp_if_false) (walk_expr cond g) in
        let start = branch-Grown cond t c in
        let head = branch-code cond scope g t c hc ext₀ in
        let body =
          walk_block-code_from b scope (emit 0 g₁) start.table start.covers hb (omega lengths)
            (rw branch-names ext₀) (rw names-patch at ext) in
        let (placed, total) = body-code cond b g head body in
        patched g₁ (walk_block b (emit 0 g₁)) _ placed ∙ simp (total, head, append_assoc)
    walk-code_from (while_loop cond b) scope g t c h short ext₀ ext =
        let (hc, hb) = (and-eq-true_iff (scoped_expr scope cond) (scoped_block b scope)).0 h in
        let g₁ = emit (code_of OpCode.jmp_if_false) (walk_expr cond g) in
        let g₂ = walk_block b (emit 0 g₁) in
        let start = branch-Grown cond t c in
        let head = branch-code cond scope g t c hc ext₀ in
        let body =
          walk_block-code_from b scope (emit 0 g₁) start.table start.covers hb (omega lengths)
            (rw branch-names ext₀) (rw (names-patch, names-emit, names-emit) at ext) in
        let (placed, total) = body-code cond b g head body in
        let closed : length (emit (length g.bytes) (emit (code_of OpCode.jmp) g₂)).bytes
            ≡ length g.bytes + size_expr cond + 2 + size_block b + 2 =
          omega (lengths, total) in
        patched g₁ (emit (length g.bytes) (emit (code_of OpCode.jmp) g₂))
          (code_block (slot final) (length g.bytes + size_expr cond + 2) b
            ++ byte (code_of OpCode.jmp) ∷ byte (length g.bytes) ∷ [])
          (simp (bytes-emit, placed, append_assoc))
        ∙ simp (closed, head, append_assoc)

    walk_block-code_from :
        (b : Block) (scope : List Name) (g : Gen)
        → IsTable g
        → Covers scope g.names
        → scoped_block b scope ≡ true
        → length (walk_block b g).bytes ≤ 256
        → Extends g.names final
        → Extends (walk_block b g).names final
        → (walk_block b g).bytes ≡ g.bytes ++ code_block (slot final) (length g.bytes) b
    walk_block-code_from done scope g t c h short ext₀ ext = sym (append-nil g.bytes)
    walk_block-code_from (next s b) scope g t c h short ext₀ ext =
        let (hs, hb) =
          (and-eq-true_iff (scoped_stmt s scope) (scoped_block b (scope_stmt s scope))).0 h in
        let first = walk-Grown s scope g t c hs (omega (arith, length-walk_block b (walk s g))) in
        let second =
          walk_block-Grown b (scope_stmt s scope) (walk s g) first.table first.covers hb short in
        let between : Extends (walk s g).names final =
          λ y i n e. ext y i n (second.extends y i n e) in
        let p =
          walk-code_from s scope g t c hs (omega (arith, length-walk_block b (walk s g))) ext₀
            between in
        let q =
          walk_block-code_from b (scope_stmt s scope) (walk s g) first.table first.covers hb short
            between ext in
        let n : length (walk s g).bytes ≡ length g.bytes + size_stmt s = omega (
          arith,
          ap length p,
          length-append g.bytes (code_stmt (slot final) (length g.bytes) s),
          length-code_stmt (slot final) (length g.bytes) s,
        ) in
        rw n at q ∙ simp (p, append_assoc)

-- The table once the whole program has been walked.
abbrev pub final_names : Block → List Name
final_names b = (walk_block b initial).names

initial-Covers : Covers [] initial.names
unfolding member
initial-Covers x h = cc

pub initial-Grown :
    (b : Block)
    → scoped_block b [] ≡ true
    → size_block b ≤ 256
    → Grown (scope_block b []) initial (walk_block b initial)
initial-Grown b h small =
    walk_block-Grown b [] initial initial-IsTable initial-Covers h
      (omega (arith, length-walk_block-le b initial))

-- A program whose variables are assigned further up in its text, and whose code without the final
-- OP_HALT takes at most 256 bytes, compiles to the layout of the tree from address 0, with the
-- slots of the finished variable table, followed by OP_HALT: no placeholder is left, every operand
-- is a slot or a literal modulo 256, and every jump target is the layout's address modulo 256.
pub generate_byte-code :
    (b : Block)
    → scoped_block b [] ≡ true
    → size_block b ≤ 256
    → generate_byte b ≡ code_block (slot (final_names b)) 0 b ++ 0xff ∷ []
unfolding generate_byte code_of
generate_byte-code b h small =
    let grown = initial-Grown b h small in
    let same =
      walk_block-code_from (final_names b) b [] initial initial-IsTable initial-Covers h
        (omega (arith, length-walk_block-le b initial)) grown.extends (λ y i n e. e) in
    bytes-emit (code_of OpCode.halt) (walk_block b initial) ∙ ap (λ l. l ++ 0xff ∷ []) same
