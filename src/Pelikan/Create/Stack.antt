-- ===== src/Pelikan/Create/Stack.antt =====
-- The stack that `create_task` of pelikanOS/src/scheduler.c prepares.
use mathlib.Core.Path.{subst}
use systems_programming_proj.Prelude.{ℕ, ◌+◌, ◌<◌, ◌^◌, ◌≡◌, sym, ap, ◌∙◌, arith}
use systems_programming_proj.Pelikan.Vmm.{Words, put_word}
use systems_programming_proj.Pelikan.Vmm.Tables.{put_word_self, put_word_other}
use systems_programming_proj.Pelikan.Create.{push, first_frame}

-- What `swtch` pops from the stack: EBP, EDI, ESI, EBX, the flags, and the address it returns to.
pub record FirstFrame (w : Words) (esp code : ℕ) : Type 0 where
  pub ebp : w esp ≡ 0
  pub edi : w (esp + 4) ≡ 0
  pub esi : w (esp + 8) ≡ 0
  pub ebx : w (esp + 12) ≡ 0
  pub eflags : w (esp + 16) ≡ 0x202
  pub return_address : w (esp + 20) ≡ code

push-below : (x t s : ℕ) (w : Words) → t ≡ s + 4 → t < 2 ^ 32 → push x (t, w) ≡ (s, put_word s x w)
unfolding push
push-below x t s w e lt = ap (λ i. (i, put_word i x w)) (omega (arith, e, lt))

abbrev frame_words : (esp code : ℕ) → Words → Words
frame_words esp code w = put_word esp 0 (
    put_word (esp + 4) 0 (
      put_word (esp + 8) 0
        (put_word (esp + 12) 0 (put_word (esp + 16) 0x202 (put_word (esp + 20) code w)))))

first_frame-words :
    (code esp : ℕ) (w : Words)
    → esp + 24 < 2 ^ 32
    → first_frame code (esp + 24, w) ≡ (esp, frame_words esp code w)
unfolding first_frame
first_frame-words code esp w lt =
    let at =
      λ (x t s : ℕ) (e : t ≡ s + 4) (below : t < 2 ^ 32) (v : Words). push-below x t s v e below in
    ap (λ i. push 0 (push 0 (push 0 (push 0 (push 0x202 i)))))
      (at code (esp + 24) (esp + 20) (omega arith) lt w)
    ∙ (ap (λ i. push 0 (push 0 (push 0 (push 0 i))))
          (at 0x202 (esp + 20) (esp + 16) (omega arith) (omega arith) _)
        ∙ (ap (λ i. push 0 (push 0 (push 0 i)))
              (at 0 (esp + 16) (esp + 12) (omega arith) (omega arith) _)
            ∙ (ap (λ i. push 0 (push 0 i)) (at 0 (esp + 12) (esp + 8) (omega arith) (omega arith) _)
                ∙ (ap (push 0) (at 0 (esp + 8) (esp + 4) (omega arith) (omega arith) _)
                    ∙ at 0 (esp + 4) esp (omega arith) (omega arith) _))))

-- A word under the words that are pushed behind it.
under : (a q x : ℕ) (w : Words) (v : ℕ) → a < q → w q ≡ v → put_word a x w q ≡ v
under a q x w v lt e = put_word_other a q x w (λ f. omega (arith, f, lt)) ∙ e

frame_words-FirstFrame : (esp code : ℕ) (w : Words) → FirstFrame (frame_words esp code w) esp code
frame_words-FirstFrame esp code w = record {
  ebp = put_word_self esp 0 _;
  edi = under esp (esp + 4) 0 _ 0 (omega arith) (put_word_self (esp + 4) 0 _);
  esi =
      under esp (esp + 8) 0 _ 0 (omega arith)
        (under (esp + 4) (esp + 8) 0 _ 0 (omega arith) (put_word_self (esp + 8) 0 _));
  ebx = under esp (esp + 12) 0 _ 0 (omega arith) (
      under (esp + 4) (esp + 12) 0 _ 0 (omega arith)
        (under (esp + 8) (esp + 12) 0 _ 0 (omega arith) (put_word_self (esp + 12) 0 _)));
  eflags = under esp (esp + 16) 0 _ 0x202 (omega arith) (
      under (esp + 4) (esp + 16) 0 _ 0x202 (omega arith) (
        under (esp + 8) (esp + 16) 0 _ 0x202 (omega arith) (
          under (esp + 12) (esp + 16) 0 _ 0x202 (omega arith) (put_word_self (esp + 16) 0x202 _))));
  return_address = under esp (esp + 20) 0 _ code (omega arith) (
      under (esp + 4) (esp + 20) 0 _ code (omega arith) (
        under (esp + 8) (esp + 20) 0 _ code (omega arith) (
          under (esp + 12) (esp + 20) 0 _ code (omega arith) (
            under (esp + 16) (esp + 20) 0x202 _ code (omega arith)
              (put_word_self (esp + 20) code w)))));
}

-- The pushes leave the stack pointer at the frame.
pub first_frame-FirstFrame :
    (code esp : ℕ) (w : Words)
    → esp + 24 < 2 ^ 32
    → ((first_frame code (esp + 24, w)).0 ≡ esp)
      × FirstFrame (first_frame code (esp + 24, w)).1 esp code
first_frame-FirstFrame code esp w lt =
    let e = first_frame-words code esp w lt in
    (
      ap (λ p. p.0) e,
      subst (λ p. FirstFrame p.1 esp code) (sym e) (frame_words-FirstFrame esp code w),
    )
