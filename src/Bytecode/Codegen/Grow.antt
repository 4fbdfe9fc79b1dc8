-- ===== src/Bytecode/Codegen/Grow.antt =====
-- The bytes and the table only grow while `walk` (bytecode-vm/compiler.c) goes over a program.
use systems_programming_proj.Prelude.{
  ℕ, suc, ◌+◌, ◌*◌, ◌≤◌, ◌<◌, ◌≡◌, ◌≢◌, refl, inl, inr, Bool, true, false, Option, none, some, List,
  [], ◌∷◌, ◌++◌, arith, Bool-cases, Option-cases, length, length-append, length-set,
  length-replicate, get_or, get_or-set_ne, get_or-replicate, set, replicate, bytes_eq, bytes_eq→eq,
}
use systems_programming_proj.Bytecode.OpCode.{code_of}
use systems_programming_proj.Bytecode.OpCode
use systems_programming_proj.Bytecode.Ast.{
  Name, Expr, num, ident, binary, Stmt, assign, print, while_loop, if_then, Block, done, next,
}
use systems_programming_proj.Bytecode.Codegen.{
  Gen, byte, emit, find, load_slot, store_slot, walk_expr, patch, walk, walk_block,
}
use systems_programming_proj.Bytecode.Codegen.Layout.{size_expr, size_stmt, size_block}

-- The later generator state has at least as many bytes; names and counter are the same.
pub record SameTable (g g' : Gen) : Type 0 where
  pub names : g'.names ≡ g.names
  pub count : g'.count ≡ g.count
  pub longer : length g.bytes ≤ length g'.bytes

pub emit-SameTable : (b : ℕ) {g g' : Gen} → SameTable g g' → SameTable g (emit b g')
unfolding emit
emit-SameTable b {g' = g'} s = record {
  names = s.names;
  count = s.count;
  longer = omega (arith, s.longer, length-append g'.bytes (byte b ∷ []));
}

load_slot-SameTable : (o : Option ℕ) {g g' : Gen} → SameTable g g' → SameTable g (load_slot o g')
unfolding load_slot
load_slot-SameTable none s = s
load_slot-SameTable (some i) s = emit-SameTable i s

walk_expr-SameTable_from : (e : Expr) {g g' : Gen} → SameTable g g' → SameTable g (walk_expr e g')
unfolding walk_expr
walk_expr-SameTable_from (num n) s = emit-SameTable n (emit-SameTable _ s)
walk_expr-SameTable_from (ident x) s = load_slot-SameTable _ (emit-SameTable _ s)
walk_expr-SameTable_from (binary op l r) s =
    emit-SameTable _ (walk_expr-SameTable_from r (walk_expr-SameTable_from l s))

pub walk_expr-SameTable : (e : Expr) (g : Gen) → SameTable g (walk_expr e g)
walk_expr-SameTable e g =
    walk_expr-SameTable_from e (record { names = refl; count = refl; longer = omega arith })

pub length-emit : (b : ℕ) (g : Gen) → length (emit b g).bytes ≡ length g.bytes + 1
unfolding emit
length-emit b g = omega (arith, length-append g.bytes (byte b ∷ []))

pub length-patch : (i : ℕ) (g : Gen) → length (patch i g).bytes ≡ length g.bytes
unfolding patch
length-patch i g = length-set g.bytes i (byte (length g.bytes))

pub length-store_slot :
    (x : Name) (o : Option ℕ) (g : Gen) → length (store_slot x o g).bytes ≡ length g.bytes + 1
unfolding store_slot emit
length-store_slot x none g = omega (arith, length-append g.bytes (byte g.count ∷ []))
length-store_slot x (some i) g = omega (arith, length-append g.bytes (byte i ∷ []))

pub ruleset lengths = (arith, length-emit, length-patch, length-store_slot)

mutual
  unfolding walk

  length-walk_from : (s : Stmt) (g : Gen) → length g.bytes ≤ length (walk s g).bytes
  length-walk_from (assign x e) g = omega (lengths, (walk_expr-SameTable e g).longer)
  length-walk_from (print e) g = omega (lengths, (walk_expr-SameTable e g).longer)
  length-walk_from (if_then c b) g =
      let g₁ = emit (code_of OpCode.jmp_if_false) (walk_expr c g) in
      omega (lengths, (walk_expr-SameTable c g).longer, length-walk_block_from b (emit 0 g₁))
  length-walk_from (while_loop c b) g =
      let g₁ = emit (code_of OpCode.jmp_if_false) (walk_expr c g) in
      omega (lengths, (walk_expr-SameTable c g).longer, length-walk_block_from b (emit 0 g₁))

  length-walk_block_from : (b : Block) (g : Gen) → length g.bytes ≤ length (walk_block b g).bytes
  length-walk_block_from done g = omega arith
  length-walk_block_from (next s b) g =
      omega (arith, length-walk_from s g, length-walk_block_from b (walk s g))

-- No statement shortens the code.
pub length-walk : (s : Stmt) (g : Gen) → length g.bytes ≤ length (walk s g).bytes
length-walk s g = length-walk_from s g

pub length-walk_block : (b : Block) (g : Gen) → length g.bytes ≤ length (walk_block b g).bytes
length-walk_block b g = length-walk_block_from b g

length-load_slot : (o : Option ℕ) (g : Gen) → length (load_slot o g).bytes ≤ length g.bytes + 1
unfolding load_slot
length-load_slot none g = omega arith
length-load_slot (some i) g = omega (arith, length-emit i g)

length-walk_expr-le :
    (e : Expr) (g : Gen) → length (walk_expr e g).bytes ≤ length g.bytes + size_expr e
unfolding walk_expr size_expr
length-walk_expr-le (num n) g = omega lengths
length-walk_expr-le (ident x) g =
    omega (lengths, length-load_slot (find x g.names) (emit (code_of OpCode.load) g))
length-walk_expr-le (binary op l r) g =
    omega (lengths, length-walk_expr-le l g, length-walk_expr-le r (walk_expr l g))

mutual
  unfolding walk size_stmt

  length-walk-le_from :
      (s : Stmt) (g : Gen) → length (walk s g).bytes ≤ length g.bytes + size_stmt s
  length-walk-le_from (assign x e) g = omega (lengths, length-walk_expr-le e g)
  length-walk-le_from (print e) g = omega (lengths, length-walk_expr-le e g)
  length-walk-le_from (if_then c b) g =
      let g₁ = emit (code_of OpCode.jmp_if_false) (walk_expr c g) in
      omega (lengths, length-walk_expr-le c g, length-walk_block-le_from b (emit 0 g₁))
  length-walk-le_from (while_loop c b) g =
      let g₁ = emit (code_of OpCode.jmp_if_false) (walk_expr c g) in
      omega (lengths, length-walk_expr-le c g, length-walk_block-le_from b (emit 0 g₁))

  length-walk_block-le_from :
      (b : Block) (g : Gen) → length (walk_block b g).bytes ≤ length g.bytes + size_block b
  length-walk_block-le_from done g = omega arith
  length-walk_block-le_from (next s b) g =
      omega (arith, length-walk-le_from s g, length-walk_block-le_from b (walk s g))

-- No block writes more bytes than its size.
pub length-walk_block-le :
    (b : Block) (g : Gen) → length (walk_block b g).bytes ≤ length g.bytes + size_block b
length-walk_block-le b g = length-walk_block-le_from b g
