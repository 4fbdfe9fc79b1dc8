-- ===== src/Bytecode/Correct/Instructions.antt =====
-- One step of `Machine` for each instruction that the compiler emits.
use systems_programming_proj.Prelude.{
  ℕ, ◌+◌, ◌<◌, ◌≡◌, refl, ◌∙◌, true, false, some, List, [], ◌∷◌, ◌++◌, arith, length, get_elem?,
  get_or, set, ◌==◌,
}
use systems_programming_proj.Prelude.Int.{ℤ, pos, eq_ℤ}
use systems_programming_proj.Bytecode.OpCode.{
  OpCode, push, print, jmp, jmp_if_false, load, store, halt, code_of, decode-code_of,
}
use systems_programming_proj.Bytecode.Vm.{Result, ok, err, ◌>>=◌, stack_overflow, size}
use systems_programming_proj.Bytecode.Machine.{
  Machine, put, take_top, operand, combine, apply_binary, push_value, perform, perform_byte, step,
}
use systems_programming_proj.Bytecode.Codegen.{byte}
use systems_programming_proj.Bytecode.Correct.Reach.{At, mach}

pub byte-code_of : (op : OpCode) → byte (code_of op) ≡ code_of op
unfolding code_of
byte-code_of push = refl
byte-code_of _ = refl

operand_at : (code : List ℕ) (p b : ℕ) → get_elem? code p ≡ some b → operand code p ≡ ok b
unfolding operand
operand_at code p b h = rw (h, operand)

put_room : (v : ℤ) (xs : List ℤ) → length xs < size → put stack_overflow v xs ≡ ok (v ∷ xs)
unfolding put
put_room v xs h = let free : (length xs == size) ≡ false = ground arith in rw free

step-opcode :
    (code : List ℕ) (op : OpCode) (m : Machine)
    → get_elem? code m.ip ≡ some (code_of op)
    → step code m ≡ perform code op (record m { ip = m.ip + 1 })
unfolding step perform_byte
step-opcode code op m h = rw (operand_at code m.ip (code_of op) h, decode-code_of op, perform_byte)

module _ (code : List ℕ) (p : ℕ) (xs g out : List ℤ) where
  pub step-push :
      (n : ℕ)
      → At code p (code_of push ∷ n ∷ [])
      → length xs < size
      → step code (mach p xs g out) ≡ ok (mach (p + 1 + 1) (pos n ∷ xs) g out)
  unfolding perform push_value
  step-push n (h, (hn, _)) room =
      step-opcode code push _ h ∙ rw (operand_at code (p + 1) n hn, put_room (pos n) xs room)

  pub step-load :
      (slot : ℕ)
      → At code p (code_of load ∷ slot ∷ [])
      → length xs < size
      → step code (mach p xs g out) ≡ ok (mach (p + 1 + 1) (get_or g slot (pos 0) ∷ xs) g out)
  unfolding perform push_value
  step-load slot (h, (hn, _)) room =
      step-opcode code load _ h
      ∙ rw (operand_at code (p + 1) slot hn, put_room (get_or g slot (pos 0)) xs room)

  pub step-store :
      (slot : ℕ) (v : ℤ)
      → At code p (code_of store ∷ slot ∷ [])
      → step code (mach p (v ∷ xs) g out) ≡ ok (mach (p + 1 + 1) xs (set g slot v) out)
  unfolding perform take_top
  step-store slot v (h, (hn, _)) = step-opcode code store _ h ∙ rw (operand_at code (p + 1) slot hn)

  pub step-print :
      (v : ℤ)
      → At code p (code_of print ∷ [])
      → step code (mach p (v ∷ xs) g out) ≡ ok (mach (p + 1) xs g (out ++ v ∷ []))
  unfolding perform take_top
  step-print v (h, _) = step-opcode code print _ h

  pub step-jmp :
      (dest : ℕ)
      → At code p (code_of jmp ∷ dest ∷ [])
      → step code (mach p xs g out) ≡ ok (mach dest xs g out)
  unfolding perform
  step-jmp dest (h, (hn, _)) = step-opcode code jmp _ h ∙ rw (operand_at code (p + 1) dest hn)

  pub step-jmp_if_false_taken :
      (dest : ℕ) (c : ℤ)
      → At code p (code_of jmp_if_false ∷ dest ∷ [])
      → eq_ℤ c (pos 0) ≡ true
      → step code (mach p (c ∷ xs) g out) ≡ ok (mach dest xs g out)
  unfolding perform take_top
  step-jmp_if_false_taken dest c (h, (hn, _)) e =
      step-opcode code jmp_if_false _ h ∙ rw (e, operand_at code (p + 1) dest hn)

  pub step-jmp_if_false_passed :
      (dest : ℕ) (c : ℤ)
      → At code p (code_of jmp_if_false ∷ dest ∷ [])
      → eq_ℤ c (pos 0) ≡ false
      → step code (mach p (c ∷ xs) g out) ≡ ok (mach (p + 1 + 1) xs g out)
  unfolding perform take_top
  step-jmp_if_false_passed dest c (h, _) e = step-opcode code jmp_if_false _ h ∙ rw e

  pub step-halt :
      At code p (code_of halt ∷ [])
      → step code (mach p xs g out)
        ≡ ok
            (record { ip = p + 1; stack = xs; globals = g; calls = []; running = false; out = out })
  unfolding perform
  step-halt (h, _) = step-opcode code halt _ h

-- The binary instructions.
abbrev pub IsBinary : OpCode → Type 0
IsBinary op = (code : List ℕ) (m : Machine) → perform code op m ≡ apply_binary op m

pub step-binary :
    (code : List ℕ) (p : ℕ) (xs g out : List ℤ) (op : OpCode) (l r : ℤ)
    → IsBinary op
    → At code p (code_of op ∷ [])
    → length xs < size
    → step code (mach p (r ∷ l ∷ xs) g out)
      ≡ (combine op l r >>= λ v. ok (mach (p + 1) (v ∷ xs) g out))
unfolding apply_binary take_top
step-binary code p xs g out op l r is (h, _) room =
    step-opcode code op _ h ∙ is code _ ∙ go (combine op l r)
  where
    go :
        (o : Result ℤ)
        → (o >>= λ v. put stack_overflow v xs >>= λ zs. ok (mach (p + 1) zs g out))
          ≡ (o >>= λ v. ok (mach (p + 1) (v ∷ xs) g out))
    go (ok v) = rw (put_room v xs room)
    go (err e) = refl
