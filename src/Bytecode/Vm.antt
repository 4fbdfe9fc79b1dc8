-- ===== src/Bytecode/Vm.antt =====
-- bytecode-vm/vm.c: the machine with its arrays. A function that updates `*vm` returns the new
-- machine; a call of `exit(1)`, and what C leaves undefined, is an error value.
use systems_programming_proj.Prelude.{
  ℕ, zero, suc, ◌+◌, ◌-◌, Bool, true, false, Option, none, some, List, [], ◌∷◌, ◌++◌, get_elem?,
  get_or, set, replicate, ◌==◌, if◌then◌else◌,
}
use systems_programming_proj.Prelude.Int.{
  ℤ, pos, ◌+ℤ◌, ◌-ℤ◌, ◌*ℤ◌, ◌/ℤ◌, ltb_ℤ, eq_ℤ, fits_int, to_int, to_size,
}
use systems_programming_proj.Bytecode.OpCode.{
  OpCode, push, pop, add, sub, mul, div, print, eq, lt, gt, jmp, jmp_if_false, load, store, call,
  ret, halt, decode,
}

-- The messages before `exit(1)`; `undefined` is a read outside the code array or an `int` overflow.
pub data Error : Type 0 where
  stack_overflow stack_underflow call_overflow call_underflow division_by_zero undefined : Error
  unknown_opcode : ℕ → Error

pub data Result {ℓ} (A : Type ℓ) : Type ℓ where
  ok : A → Result A
  err : Error → Result A

infixl 5 ◌>>=◌
abbrev pub ◌>>=◌ {ℓ κ} : {A : Type ℓ} {B : Type κ} → Result A → (A → Result B) → Result B
ok a >>= f = f a
err e >>= f = err e

-- A line on standard output.
pub data Line : Type 0 where
  initialized : Line
  running_op : ℕ → Line
  value : ℤ → Line

pub record Vm : Type 0 where
  pub code : List ℕ
  pub ip : ℕ
  pub stack : List ℤ
  pub sp : ℕ
  pub globals : List ℤ
  pub cstack : List ℤ
  pub csp : ℕ
  pub running : Bool
  pub out : List Line

abbrev pub size : ℕ
size = 256

-- `none` is the call with a null pointer, which leaves the machine as it is.
unfoldable pub vm_init : Option (List ℕ) → Vm → Vm
vm_init none vm = vm
vm_init (some code) vm = record {
  code = code;
  ip = 0;
  stack = replicate size (pos 0);
  sp = 0;
  globals = replicate size (pos 0);
  cstack = replicate size (pos 0);
  csp = 0;
  running = true;
  out = vm.out ++ initialized ∷ [];
}

unfoldable pub vm_push : ℤ → Vm → Result Vm
vm_push num vm =
    if vm.sp == size
    then err stack_overflow
    else ok (record vm { stack = set vm.stack vm.sp num; sp = vm.sp + 1 })

unfoldable pub vm_pop : Vm → Result (ℤ × Vm)
vm_pop vm =
    if vm.sp == 0
    then err stack_underflow
    else ok (get_or vm.stack (vm.sp - 1) (pos 0), record vm { sp = vm.sp - 1 })

unfoldable pub vm_push_cs : ℤ → Vm → Result Vm
vm_push_cs ip vm =
    if vm.csp == size
    then err call_overflow
    else ok (record vm { cstack = set vm.cstack vm.csp ip; csp = vm.csp + 1 })

unfoldable pub vm_pop_cs : Vm → Result (ℤ × Vm)
vm_pop_cs vm =
    if vm.csp == 0
    then err call_underflow
    else ok (get_or vm.cstack (vm.csp - 1) (pos 0), record vm { csp = vm.csp - 1 })

-- `code[ip++]`
unfoldable pub fetch : Vm → Result (ℕ × Vm)
fetch vm = elim (get_elem? vm.code vm.ip) [
  | none ↦ err undefined
  | some b ↦ ok (b, record vm { ip = vm.ip + 1 })
]

-- The result of `int` arithmetic.
unfoldable pub int_result : ℤ → Result ℤ
int_result z = if fits_int z then ok z else err undefined

unfoldable pub divide : ℤ → ℤ → Result ℤ
divide a b = if eq_ℤ b (pos 0) then err division_by_zero else int_result (a /ℤ b)

abbrev pub flag : Bool → ℤ
flag b = if b then pos 1 else pos 0

-- The two operands popped by a binary instruction, in the order of the pops, and the result pushed.
unfoldable pub binary : (ℤ → ℤ → Result ℤ) → Vm → Result Vm
binary f vm = do
  (first, vm₁) ← vm_pop vm
  (second, vm₂) ← vm_pop vm₁
  v ← f first second
  vm_push v vm₂

-- The arms of the `switch`.
unfoldable pub execute : OpCode → Vm → Result Vm
execute push vm = do (num, vm₁) ← fetch vm; vm_push (pos num) vm₁
execute pop vm = do (_, vm₁) ← vm_pop vm; ok vm₁
execute add vm = binary (λ b a. int_result (a +ℤ b)) vm
execute sub vm = binary (λ b a. int_result (a -ℤ b)) vm
execute mul vm = binary (λ b a. int_result (a *ℤ b)) vm
execute div vm = binary (λ b a. divide a b) vm
execute eq vm = binary (λ a b. ok (flag (eq_ℤ a b))) vm
execute gt vm = binary (λ a b. ok (flag (ltb_ℤ a b))) vm
execute lt vm = binary (λ a b. ok (flag (ltb_ℤ b a))) vm
execute jmp vm = do (dest, vm₁) ← fetch vm; ok (record vm₁ { ip = dest })
execute jmp_if_false vm = do
  (c, vm₁) ← vm_pop vm
  let jump = do (dest, vm₂) ← fetch vm₁; ok (record vm₂ { ip = dest })
  if eq_ℤ c (pos 0) then jump else ok (record vm₁ { ip = vm₁.ip + 1 })
execute store vm = do
  (val, vm₁) ← vm_pop vm
  (slot, vm₂) ← fetch vm₁
  ok (record vm₂ { globals = set vm₂.globals slot val })
execute load vm = do (slot, vm₁) ← fetch vm; vm_push (get_or vm₁.globals slot (pos 0)) vm₁
execute call vm = do
  (dest, vm₁) ← fetch vm
  vm₂ ← vm_push_cs (to_int vm₁.ip) vm₁
  ok (record vm₂ { ip = dest })
execute ret vm = do (ip, vm₁) ← vm_pop_cs vm; ok (record vm₁ { ip = to_size ip })
execute print vm = do (v, vm₁) ← vm_pop vm; ok (record vm₁ { out = vm₁.out ++ value v ∷ [] })
execute halt vm = ok (record vm { running = false })

unfoldable pub dispatch : ℕ → Vm → Result Vm
dispatch b vm = elim (decode b) [ none ↦ err (unknown_opcode b) | some op ↦ execute op vm ]

-- One round of the loop of `vm_run`: fetch, trace, execute.
unfoldable pub step : Vm → Result Vm
step vm = do (op, vm₁) ← fetch vm; dispatch op (record vm₁ { out = vm₁.out ++ running_op op ∷ [] })

-- How a run ends. A failed run keeps the machine on which the failing round began.
pub data Outcome : Type 0 where
  halted : Vm → Outcome
  failed : Error → Vm → Outcome
  out_of_fuel : Outcome

-- `vm_run`, for at most as many rounds as the fuel says.
unfoldable pub vm_run : ℕ → Vm → Outcome
vm_run zero vm = if vm.running then out_of_fuel else halted vm
vm_run (suc fuel) vm =
    let round : Outcome = elim (step vm) [ ok vm' ↦ vm_run fuel vm' | err e ↦ failed e vm ] in
    if vm.running then round else halted vm
