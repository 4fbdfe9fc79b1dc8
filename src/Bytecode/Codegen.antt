-- ===== src/Bytecode/Codegen.antt =====
-- `walk` and `generate_byte` of bytecode-vm/compiler.c. The byte array is the list of the bytes
-- written so far, so `byte_array_count` is its length; `var_names` and `var_count` are globals of
-- the source, and are passed on here.
pub mod Table
pub mod Layout
pub mod Grow
pub mod Extension
pub mod Keeps
pub mod Backpatch
use systems_programming_proj.Prelude.{
  ℕ, suc, ◌+◌, ◌%◌, Option, none, some, List, [], ◌∷◌, ◌++◌, length, set, replicate, bytes_eq,
  if◌then◌else◌,
}
use systems_programming_proj.Bytecode.OpCode.{OpCode, code_of}
use systems_programming_proj.Bytecode.OpCode
use systems_programming_proj.Bytecode.Ast.{
  Name, BinOp, add, sub, mul, div, gt, lt, eqeq, Expr, num, ident, binary, Stmt, assign, print,
  while_loop, if_then, Block, done, next,
}

pub record Gen : Type 0 where
  pub bytes : List ℕ
  pub names : List Name
  pub count : ℕ

-- The conversion to `uint8_t` that each write to the byte array makes.
abbrev pub byte : ℕ → ℕ
byte n = n % 256

unfoldable pub emit : ℕ → Gen → Gen
emit b g = record g { bytes = g.bytes ++ byte b ∷ [] }

-- The search through `var_names`: the first entry that `strcmp` finds equal.
unfoldable pub find : Name → List Name → Option ℕ
find x [] = none
find x (y ∷ ys) =
    if bytes_eq y x then some 0 else (elim (find x ys) [ none ↦ none | some i ↦ some (suc i) ])

unfoldable pub op_code : BinOp → OpCode
op_code add = OpCode.add
op_code sub = OpCode.sub
op_code mul = OpCode.mul
op_code div = OpCode.div
op_code gt = OpCode.gt
op_code lt = OpCode.lt
op_code eqeq = OpCode.eq

-- The operand of OP_LOAD: nothing is written when the name is unknown.
unfoldable pub load_slot : Option ℕ → Gen → Gen
load_slot none g = g
load_slot (some i) g = emit i g

-- The operand of OP_STORE: an unknown name gets the next entry of the table.
unfoldable pub store_slot : Name → Option ℕ → Gen → Gen
store_slot x none g = record g {
  bytes = g.bytes ++ byte g.count ∷ [];
  names = set g.names g.count x;
  count = g.count + 1;
}
store_slot x (some i) g = emit i g

unfoldable pub walk_expr : Expr → Gen → Gen
walk_expr (num n) g = emit n (emit (code_of OpCode.push) g)
walk_expr (ident x) g = load_slot (find x g.names) (emit (code_of OpCode.load) g)
walk_expr (binary op l r) g = emit (code_of (op_code op)) (walk_expr r (walk_expr l g))

-- `byte_array[placeholder_index] = *byte_array_count`
unfoldable pub patch : ℕ → Gen → Gen
patch at_index g = record g { bytes = set g.bytes at_index (byte (length g.bytes)) }

unfoldable mutual
  pub walk : Stmt → Gen → Gen
  walk (assign x e) g =
      let g₁ = emit (code_of OpCode.store) (walk_expr e g) in store_slot x (find x g₁.names) g₁
  walk (print e) g = emit (code_of OpCode.print) (walk_expr e g)
  walk (if_then c b) g =
      let g₁ = emit (code_of OpCode.jmp_if_false) (walk_expr c g) in
      patch (length g₁.bytes) (walk_block b (emit 0 g₁))
  walk (while_loop c b) g =
      let g₁ = emit (code_of OpCode.jmp_if_false) (walk_expr c g) in
      let g₂ = walk_block b (emit 0 g₁) in
      patch (length g₁.bytes) (emit (length g.bytes) (emit (code_of OpCode.jmp) g₂))

  pub walk_block : Block → Gen → Gen
  walk_block done g = g
  walk_block (next s b) g = walk_block b (walk s g)

-- The globals as the program starts: 256 empty names.
abbrev pub initial : Gen
initial = record { bytes = []; names = replicate 256 []; count = 0 }

unfoldable pub generate_byte : Block → List ℕ
generate_byte b = (emit (code_of OpCode.halt) (walk_block b initial)).bytes
