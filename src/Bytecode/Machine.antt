-- ===== src/Bytecode/Machine.antt =====
-- What a bytecode means, over stacks that are plain lists: the contract of bytecode-vm/vm.c. Both
-- stacks hold at most `size` entries, and the output is the list of the values printed.
use systems_programming_proj.Prelude.{
  ℕ, zero, suc, ◌+◌, Bool, true, false, none, some, List, [], ◌∷◌, ◌++◌, length, get_elem?, get_or,
  set, replicate, ◌==◌, if◌then◌else◌,
}
use systems_programming_proj.Prelude.Int.{ℤ, pos, ◌+ℤ◌, ◌-ℤ◌, ◌*ℤ◌, ltb_ℤ, eq_ℤ, to_int, to_size}
use systems_programming_proj.Bytecode.OpCode.{
  OpCode, push, pop, add, sub, mul, div, print, eq, lt, gt, jmp, jmp_if_false, load, store, call,
  ret, halt, decode,
}
use systems_programming_proj.Bytecode.Vm.{
  Result, ok, err, ◌>>=◌, stack_overflow, stack_underflow, call_overflow, call_underflow, undefined,
  unknown_opcode, Error, size, int_result, divide, flag,
}

pub record Machine : Type 0 where
  pub ip : ℕ
  pub stack : List ℤ
  pub globals : List ℤ
  pub calls : List ℤ
  pub running : Bool
  pub out : List ℤ

abbrev pub start : Machine
start = record {
  ip = 0;
  stack = [];
  globals = replicate size (pos 0);
  calls = [];
  running = true;
  out = [];
}

unfoldable pub put : Error → ℤ → List ℤ → Result (List ℤ)
put e v xs = if length xs == size then err e else ok (v ∷ xs)

unfoldable pub take_top : Error → List ℤ → Result (ℤ × List ℤ)
take_top e [] = err e
take_top e (x ∷ xs) = ok (x, xs)

unfoldable pub operand : List ℕ → ℕ → Result ℕ
operand code ip = elim (get_elem? code ip) [ none ↦ err undefined | some b ↦ ok b ]

-- What a binary instruction leaves for the left and the right operand.
unfoldable pub combine : OpCode → ℤ → ℤ → Result ℤ
combine add l r = int_result (l +ℤ r)
combine sub l r = int_result (l -ℤ r)
combine mul l r = int_result (l *ℤ r)
combine div l r = divide l r
combine eq l r = ok (flag (eq_ℤ r l))
combine lt l r = ok (flag (ltb_ℤ l r))
combine gt l r = ok (flag (ltb_ℤ r l))
combine _ l r = err undefined

unfoldable pub apply_binary : OpCode → Machine → Result Machine
apply_binary op m = do
  (r, xs) ← take_top stack_underflow m.stack
  (l, ys) ← take_top stack_underflow xs
  v ← combine op l r
  zs ← put stack_overflow v ys
  ok (record m { stack = zs })

unfoldable pub push_value : ℤ → Machine → Result Machine
push_value v m = do xs ← put stack_overflow v m.stack; ok (record m { stack = xs })

-- `m.ip` is already behind the opcode.
unfoldable pub perform : List ℕ → OpCode → Machine → Result Machine
perform code push m = do b ← operand code m.ip; push_value (pos b) (record m { ip = m.ip + 1 })
perform code pop m = do (_, xs) ← take_top stack_underflow m.stack; ok (record m { stack = xs })
perform code jmp m = do dest ← operand code m.ip; ok (record m { ip = dest })
perform code jmp_if_false m = do
  (c, xs) ← take_top stack_underflow m.stack
  let jump = do dest ← operand code m.ip; ok (record m { ip = dest; stack = xs })
  if eq_ℤ c (pos 0) then jump else ok (record m { ip = m.ip + 1; stack = xs })
perform code store m = do
  (v, xs) ← take_top stack_underflow m.stack
  slot ← operand code m.ip
  ok (record m { ip = m.ip + 1; stack = xs; globals = set m.globals slot v })
perform code load m = do
  slot ← operand code m.ip
  push_value (get_or m.globals slot (pos 0)) (record m { ip = m.ip + 1 })
perform code call m = do
  dest ← operand code m.ip
  cs ← put call_overflow (to_int (m.ip + 1)) m.calls
  ok (record m { ip = dest; calls = cs })
perform code ret m = do
  (ip, cs) ← take_top call_underflow m.calls
  ok (record m { ip = to_size ip; calls = cs })
perform code print m = do
  (v, xs) ← take_top stack_underflow m.stack
  ok (record m { stack = xs; out = m.out ++ v ∷ [] })
perform code halt m = ok (record m { running = false })
perform code op m = apply_binary op m

unfoldable pub perform_byte : List ℕ → ℕ → Machine → Result Machine
perform_byte code b m = elim (decode b) [
  | none ↦ err (unknown_opcode b)
  | some op ↦ perform code op (record m { ip = m.ip + 1 })
]

unfoldable pub step : List ℕ → Machine → Result Machine
step code m = do b ← operand code m.ip; perform_byte code b m

-- How a run ends, with the values printed.
pub data Outcome : Type 0 where
  halted : Machine → Outcome
  failed : Error → List ℤ → Outcome
  out_of_fuel : Outcome

unfoldable pub run : ℕ → List ℕ → Machine → Outcome
run zero code m = if m.running then out_of_fuel else halted m
run (suc fuel) code m =
    let round : Outcome = elim (step code m) [
      | ok m' ↦ run fuel code m'
      | err e ↦ failed e m.out
    ] in
    if m.running then round else halted m
