-- ===== src/Bytecode/Refine/Execute.antt =====
-- The arms of the `switch` of `vm_run` (bytecode-vm/vm.c), seen on `Machine`.
use mathlib.Core.Path.{ap₂}
use systems_programming_proj.Prelude.{
  ℕ, ◌+◌, ◌≡◌, refl, ap, ◌∙◌, inl, inr, Bool-cases, List, [], ◌∷◌, ◌++◌, get_or,
}
use systems_programming_proj.Prelude.Int.{ℤ, pos, to_int, to_size, eq_ℤ}
use systems_programming_proj.Bytecode.OpCode.{
  OpCode, push, pop, add, sub, mul, div, print, eq, lt, gt, jmp, jmp_if_false, load, store, call,
  ret, halt,
}
use systems_programming_proj.Bytecode.Vm.{Result, ok, err, ◌>>=◌, Vm, vm_push, binary, execute}
use systems_programming_proj.Bytecode.Machine.{Machine, combine, apply_binary, push_value, perform}
use systems_programming_proj.Bytecode.Refine.Stacks.{Agree, oks, errs, Agree-right, Agree-bind}
use systems_programming_proj.Bytecode.Refine.Step.{
  values, values-append, Views, fetch-Agree, push-Agree, push_cs-Agree, pop-Agree, pop_cs-Agree,
}

Agree-refl : {A : Type 0} (r : Result A) → Agree (λ a b. a ≡ b) r r
Agree-refl (ok a) = oks refl
Agree-refl (err e) = errs

abbrev pub Agrees : List ℕ → Result Vm → Result Machine → Type 0
Agrees code = Agree (Views code)

module _ {code : List ℕ} where
  -- Two `int` computations with one result, each followed by a push of it.
  push_result-Agree :
      {vm : Vm} {m : Machine} {r r' : Result ℤ}
      → Views code vm m
      → r ≡ r'
      → Agrees code (r >>= λ z. vm_push z vm) (r' >>= λ z. push_value z m)
  unfolding push_value
  push_result-Agree {r} v e =
      rw (← e) (
        Agree-bind (Agree-refl r) λ z z' same. rw same (Agree-right _ (push-Agree v z') λ _ _ w. w))

  binary-Agree :
      {vm : Vm} {m : Machine} (f : ℤ → ℤ → Result ℤ) (op : OpCode)
      → ((a b : ℤ) → f a b ≡ combine op b a)
      → Views code vm m
      → Agrees code (binary f vm) (apply_binary op m)
  unfolding binary apply_binary push_value
  binary-Agree f op same v = Agree-bind (pop-Agree v) λ r p (er, v₁).
      Agree-bind (pop-Agree v₁)
        λ l q (el, v₂). push_result-Agree v₂ (same r.0 l.0 ∙ ap₂ (combine op) el er)

  load-Agree :
      {vm : Vm} {m : Machine}
      → Views code vm m
      → Agrees code (execute load vm) (perform code load m)
  unfolding execute perform push_value
  load-Agree v = Agree-bind (fetch-Agree v) λ r slot (e, v₁).
      let same = ap₂ (λ g i. get_or g i (pos 0)) v₁.globals e in
      rw same (Agree-right _ (push-Agree v₁ _) λ _ _ w. w)

  push-opcode-Agree :
      {vm : Vm} {m : Machine}
      → Views code vm m
      → Agrees code (execute push vm) (perform code push m)
  unfolding execute perform push_value
  push-opcode-Agree v =
      Agree-bind (fetch-Agree v)
        λ r b (e, v₁). rw e (Agree-right _ (push-Agree v₁ (pos b)) λ _ _ w. w)

  jump-Agree :
      {vm : Vm} {m : Machine} → Views code vm m → Agrees code (execute jmp vm) (perform code jmp m)
  unfolding execute perform
  jump-Agree v = Agree-bind (fetch-Agree v) λ r b (e, v₁). oks (record {
    code = v₁.code;
    ip = e;
    stack = v₁.stack;
    globals = v₁.globals;
    calls = v₁.calls;
    running = v₁.running;
    out = v₁.out;
  })

  branch-Agree :
      {vm : Vm} {m : Machine}
      → Views code vm m
      → Agrees code (execute jmp_if_false vm) (perform code jmp_if_false m)
  unfolding execute perform
  branch-Agree v = Agree-bind (pop-Agree v) λ r p (e, v₁).
      rw e (elim (Bool-cases (eq_ℤ p.0 (pos 0))) [
        | inl zero ↦ rw zero (
            Agree-bind (fetch-Agree v₁) λ r' b (e', v₂). oks (record {
              code = v₂.code;
              ip = e';
              stack = v₂.stack;
              globals = v₂.globals;
              calls = v₂.calls;
              running = v₂.running;
              out = v₂.out;
            }))
        | inr other ↦ rw other (
            oks (record {
              code = v₁.code;
              ip = ap (λ k. k + 1) v₁.ip;
              stack = v₁.stack;
              globals = v₁.globals;
              calls = v₁.calls;
              running = v₁.running;
              out = v₁.out;
            }))
      ])

  store-Agree :
      {vm : Vm} {m : Machine}
      → Views code vm m
      → Agrees code (execute store vm) (perform code store m)
  unfolding execute perform
  store-Agree v = Agree-bind (pop-Agree v) λ r p (e, v₁).
      Agree-bind (fetch-Agree v₁) λ r' slot (e', v₂). oks (record {
        code = v₂.code;
        ip = v₂.ip;
        stack = v₂.stack;
        globals = cc (v₂.globals, e, e');
        calls = v₂.calls;
        running = v₂.running;
        out = v₂.out;
      })

  call-Agree :
      {vm : Vm} {m : Machine}
      → Views code vm m
      → Agrees code (execute call vm) (perform code call m)
  unfolding execute perform
  call-Agree {m} v = Agree-bind (fetch-Agree v) λ r dest (e, v₁). simp v₁.ip (
      Agree-bind (push_cs-Agree v₁ (to_int (m.ip + 1))) λ vm₂ cs v₂. oks (record {
        code = v₂.code;
        ip = e;
        stack = v₂.stack;
        globals = v₂.globals;
        calls = v₂.calls;
        running = v₂.running;
        out = v₂.out;
      }))

  ret-Agree :
      {vm : Vm} {m : Machine} → Views code vm m → Agrees code (execute ret vm) (perform code ret m)
  unfolding execute perform
  ret-Agree v = Agree-bind (pop_cs-Agree v) λ r p (e, v₁). oks (record {
    code = v₁.code;
    ip = ap to_size e;
    stack = v₁.stack;
    globals = v₁.globals;
    calls = v₁.calls;
    running = v₁.running;
    out = v₁.out;
  })

  print-Agree :
      {vm : Vm} {m : Machine}
      → Views code vm m
      → Agrees code (execute print vm) (perform code print m)
  unfolding execute perform values
  print-Agree v = Agree-bind (pop-Agree v) λ r p (e, v₁). oks (record {
    code = v₁.code;
    ip = v₁.ip;
    stack = v₁.stack;
    globals = v₁.globals;
    calls = v₁.calls;
    running = v₁.running;
    out = rw values-append (ap₂ (λ l x. l ++ x ∷ []) v₁.out e);
  })

  -- Every arm does on the arrays what the instruction does on the lists.
  pub execute-Agree :
      (op : OpCode) {vm : Vm} {m : Machine}
      → Views code vm m
      → Agrees code (execute op vm) (perform code op m)
  unfolding execute perform combine
  execute-Agree push v = push-opcode-Agree v
  execute-Agree pop v = Agree-bind (pop-Agree v) λ r p (_, v₁). oks v₁
  execute-Agree add v = binary-Agree _ add (λ a b. refl) v
  execute-Agree sub v = binary-Agree _ sub (λ a b. refl) v
  execute-Agree mul v = binary-Agree _ mul (λ a b. refl) v
  execute-Agree div v = binary-Agree _ div (λ a b. refl) v
  execute-Agree print v = print-Agree v
  execute-Agree eq v = binary-Agree _ eq (λ a b. refl) v
  execute-Agree lt v = binary-Agree _ lt (λ a b. refl) v
  execute-Agree gt v = binary-Agree _ gt (λ a b. refl) v
  execute-Agree jmp v = jump-Agree v
  execute-Agree jmp_if_false v = branch-Agree v
  execute-Agree load v = load-Agree v
  execute-Agree store v = store-Agree v
  execute-Agree call v = call-Agree v
  execute-Agree ret v = ret-Agree v
  execute-Agree halt v = oks (record {
    code = v.code;
    ip = v.ip;
    stack = v.stack;
    globals = v.globals;
    calls = v.calls;
    running = refl;
    out = v.out;
  })
