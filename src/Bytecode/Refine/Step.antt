-- ===== src/Bytecode/Refine/Step.antt =====
-- The fetch, the pushes and the pops of bytecode-vm/vm.c, seen on `Machine`.
use mathlib.Core.Path.{subst}
use systems_programming_proj.Prelude.{
  ℕ, ◌+◌, ◌-◌, ◌≡◌, ◌≢◌, refl, ap, ◌∙◌, true, false, inl, inr, List, [], ◌∷◌, ◌++◌, arith, length,
  get_elem?, ◌==◌, Bool-cases, Option-cases,
}
use systems_programming_proj.Prelude.Int.{ℤ}
use systems_programming_proj.Bytecode.Vm.{
  Line, initialized, running_op, value, Vm, stack_overflow, stack_underflow, call_overflow,
  call_underflow, size, vm_push, vm_pop, vm_push_cs, vm_pop_cs, fetch,
}
use systems_programming_proj.Bytecode.Machine.{Machine, put, take_top, operand}
use systems_programming_proj.Bytecode.Refine.Stacks.{Holds, Holds-push, Holds-pop, Agree, oks, errs}

-- The values among the lines printed.
unfoldable pub values : List Line → List ℤ
values [] = []
values (value v ∷ ls) = v ∷ values ls
values (_ ∷ ls) = values ls

pub values-append : (ls ls' : List Line) → values (ls ++ ls') ≡ values ls ++ values ls'
unfolding values
values-append [] ls' = refl
values-append (value v ∷ ls) ls' = rw (values-append ls ls')
values-append (initialized ∷ ls) ls' = values-append ls ls'
values-append (running_op op ∷ ls) ls' = values-append ls ls'

pub record Views (program : List ℕ) (vm : Vm) (m : Machine) : Type 0 where
  pub code : vm.code ≡ program
  pub ip : vm.ip ≡ m.ip
  pub stack : Holds vm.stack vm.sp m.stack
  pub globals : vm.globals ≡ m.globals
  pub calls : Holds vm.cstack vm.csp m.calls
  pub running : vm.running ≡ m.running
  pub out : values vm.out ≡ m.out

module _ {program : List ℕ} {vm : Vm} {m : Machine} (v : Views program vm m) where
  abbrev pub Fetched : ℕ × Vm → ℕ → Type 0
  Fetched r b = (r.0 ≡ b) × Views program r.1 (record m { ip = m.ip + 1 })

  abbrev pub Popped : ℤ × Vm → ℤ × List ℤ → Type 0
  Popped r p = (r.0 ≡ p.0) × Views program r.1 (record m { stack = p.1 })

  abbrev pub PoppedCall : ℤ × Vm → ℤ × List ℤ → Type 0
  PoppedCall r p = (r.0 ≡ p.0) × Views program r.1 (record m { calls = p.1 })

  pub fetch-Agree : Agree Fetched (fetch vm) (operand program m.ip)
  unfolding fetch operand
  fetch-Agree =
      let here : get_elem? vm.code vm.ip ≡ get_elem? program m.ip = cc (v.code, v.ip) in
      elim (Option-cases (get_elem? program m.ip)) [
        | inl e ↦ rw (here ∙ e, fetch, e, operand) errs
        | inr (b, e) ↦
            rw (here ∙ e, fetch, e, operand)
              (oks (
                refl,
                record {
                  code = v.code;
                  ip = ap (λ k. k + 1) v.ip;
                  stack = v.stack;
                  globals = v.globals;
                  calls = v.calls;
                  running = v.running;
                  out = v.out;
                },
              ))
      ]

  pub push-Agree :
      (z : ℤ)
      → Agree
          (λ vm' xs. Views program vm' (record m { stack = xs }))
          (vm_push z vm)
          (put stack_overflow z m.stack)
  unfolding vm_push put
  push-Agree z = elim (Bool-cases (length m.stack == size)) [
    | inl e ↦ let full : (vm.sp == size) ≡ true = rw v.stack.count e in rw (full, e) errs
    | inr e ↦
        let free : (vm.sp == size) ≡ false = rw v.stack.count e in
        let fits : length m.stack ≢ size = ground arith in
        rw (free, e)
          (oks (record {
            code = v.code;
            ip = v.ip;
            stack = Holds-push z v.stack fits;
            globals = v.globals;
            calls = v.calls;
            running = v.running;
            out = v.out;
          }))
  ]

  pub push_cs-Agree :
      (z : ℤ)
      → Agree
          (λ vm' xs. Views program vm' (record m { calls = xs }))
          (vm_push_cs z vm)
          (put call_overflow z m.calls)
  unfolding vm_push_cs put
  push_cs-Agree z = elim (Bool-cases (length m.calls == size)) [
    | inl e ↦ let full : (vm.csp == size) ≡ true = rw v.calls.count e in rw (full, e) errs
    | inr e ↦
        let free : (vm.csp == size) ≡ false = rw v.calls.count e in
        let fits : length m.calls ≢ size = ground arith in
        rw (free, e)
          (oks (record {
            code = v.code;
            ip = v.ip;
            stack = v.stack;
            globals = v.globals;
            calls = Holds-push z v.calls fits;
            running = v.running;
            out = v.out;
          }))
  ]

  pop_from : (xs : List ℤ) → m.stack ≡ xs → Agree Popped (vm_pop vm) (take_top stack_underflow xs)
  unfolding vm_pop take_top
  pop_from [] e =
      let empty : (vm.sp == 0) ≡ true = ground (arith, v.stack.count, e) in rw empty errs
  pop_from (x ∷ xs) e =
      let h : Holds vm.stack vm.sp (x ∷ xs) = subst (Holds vm.stack vm.sp) e v.stack in
      let some_left : (vm.sp == 0) ≡ false = ground (arith, h.count) in
      let top : vm.sp - 1 ≡ length xs = omega (arith, h.count) in
      rw some_left (
        oks (
          rw top h.cells.0,
          record {
            code = v.code;
            ip = v.ip;
            stack = Holds-pop h;
            globals = v.globals;
            calls = v.calls;
            running = v.running;
            out = v.out;
          },
        ))

  pub pop-Agree : Agree Popped (vm_pop vm) (take_top stack_underflow m.stack)
  pop-Agree = pop_from m.stack refl

  pop_call_from :
      (xs : List ℤ) → m.calls ≡ xs → Agree PoppedCall (vm_pop_cs vm) (take_top call_underflow xs)
  unfolding vm_pop_cs take_top
  pop_call_from [] e =
      let empty : (vm.csp == 0) ≡ true = ground (arith, v.calls.count, e) in rw empty errs
  pop_call_from (x ∷ xs) e =
      let h : Holds vm.cstack vm.csp (x ∷ xs) = subst (Holds vm.cstack vm.csp) e v.calls in
      let some_left : (vm.csp == 0) ≡ false = ground (arith, h.count) in
      let top : vm.csp - 1 ≡ length xs = omega (arith, h.count) in
      rw some_left (
        oks (
          rw top h.cells.0,
          record {
            code = v.code;
            ip = v.ip;
            stack = v.stack;
            globals = v.globals;
            calls = Holds-pop h;
            running = v.running;
            out = v.out;
          },
        ))

  pub pop_cs-Agree : Agree PoppedCall (vm_pop_cs vm) (take_top call_underflow m.calls)
  pop_cs-Agree = pop_call_from m.calls refl
