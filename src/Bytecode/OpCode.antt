-- ===== src/Bytecode/OpCode.antt =====
-- `enum OpCode` of bytecode-vm/vm.c: the opcodes, their numbers, and the `case` labels of `vm_run`.
use systems_programming_proj.Prelude.{ℕ, ◌≡◌, refl, Option, none, some, ◌==◌, if◌then◌else◌}

pub data OpCode : Type 0 where
  push pop add sub mul div print eq lt gt jmp jmp_if_false load store call ret halt : OpCode

unfoldable pub code_of : OpCode → ℕ
code_of push = 0x01
code_of pop = 0x02
code_of add = 0x03
code_of sub = 0x04
code_of mul = 0x05
code_of div = 0x06
code_of print = 0x07
code_of eq = 0x08
code_of lt = 0x09
code_of gt = 0x0a
code_of jmp = 0x0b
code_of jmp_if_false = 0x0c
code_of load = 0x0d
code_of store = 0x0e
code_of call = 0x0f
code_of ret = 0x1f
code_of halt = 0xff

-- The `switch` on a fetched byte; `none` is its `default`.
unfoldable pub decode : ℕ → Option OpCode
decode b =
    if b == 0x01
    then some push
    else if b == 0x02
    then some pop
    else if b == 0x03
    then some add
    else if b == 0x04
    then some sub
    else if b == 0x05
    then some mul
    else if b == 0x06
    then some div
    else if b == 0x07
    then some print
    else if b == 0x08
    then some eq
    else if b == 0x0a
    then some gt
    else if b == 0x09
    then some lt
    else if b == 0x0b
    then some jmp
    else if b == 0x0c
    then some jmp_if_false
    else if b == 0x0e
    then some store
    else if b == 0x0d
    then some load
    else if b == 0x0f
    then some call
    else if b == 0x1f
    then some ret
    else if b == 0xff
    then some halt
    else none

pub decode-code_of : (op : OpCode) → decode (code_of op) ≡ some op
unfolding decode code_of
decode-code_of push = refl
decode-code_of _ = refl
