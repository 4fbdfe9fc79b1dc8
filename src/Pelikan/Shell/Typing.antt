-- ===== src/Pelikan/Shell/Typing.antt =====
-- A command typed at the prompt of pelikanOS/src/shell.c.
use mathlib.Core.Path.{subst}
use systems_programming_proj.Prelude.{
  append_nil, ℕ, suc, ◌+◌, ◌<◌, ◌≤◌, true, false, Option, none, some, List, [], ◌∷◌, ◌++◌, length,
  length-append, get_or, set, ltb, ◌==◌, ◌≡◌, refl, sym, ap, ◌∙◌, ◌≢◌, arith,
}
use systems_programming_proj.Pelikan.Cstring.Laws.{NoNul}
use systems_programming_proj.Pelikan.Vga.{Vga, print}
use systems_programming_proj.Pelikan.Shell.{
  Shell, commands, look_up, Limits, argument, run_command, dispatch, clear_line, add_char,
  enter_line, take_char, take_chars,
}
use systems_programming_proj.Pelikan.Shell.Line.{IsLine, add_char-IsLine}
use systems_programming_proj.Pelikan.Shell.Split.{
  Spells, first_word, after_space, command_word-first_word, argument-after_space, Spells-snoc,
}

-- Characters that the editor adds to the line.
abbrev pub Plain : List ℕ → Type 0
Plain [] = Unit
Plain (c ∷ s) = ((c ≢ 0) × ((c ≢ 8) × (c ≢ 10))) × Plain s

-- Each character is printed when it is typed.
unfoldable pub echo : List ℕ → Vga → Vga
echo [] vga = vga
echo (c ∷ s) vga = echo s (print (c ∷ []) vga)

-- The line so far.
record Typed (sh : Shell) (s : List ℕ) : Type 0 where
  line : IsLine sh
  index : sh.linebuf_index ≡ length s
  spells : Spells sh.linebuf 0 s

abbrev with_char : ℕ → Shell → Shell
with_char c sh = record sh {
  linebuf = set sh.linebuf sh.linebuf_index c;
  linebuf_index = sh.linebuf_index + 1;
  vga = print (c ∷ []) sh.vga;
}

take_plain :
    (lim : Limits) (c : ℕ) (sh : Shell) → c ≢ 8 → c ≢ 10 → take_char lim c sh ≡ some (add_char c sh)
unfolding take_char
take_plain lim c sh n m =
    let e : (c == 8) ≡ false = ground (arith, n) in
    let f : (c == 10) ≡ false = ground (arith, m) in rw (e, f) refl

add_char-room : (c : ℕ) (sh : Shell) → sh.linebuf_index < 127 → add_char c sh ≡ with_char c sh
unfolding add_char
add_char-room c sh lt =
    let e : ltb sh.linebuf_index 127 ≡ true = ground (arith, lt) in simp (e) refl

with_char-Typed :
    (c : ℕ) (sh : Shell) (s : List ℕ)
    → length s < 127
    → Typed sh s
    → Typed (with_char c sh) (s ++ c ∷ [])
with_char-Typed c sh s lt h =
    let lt' : sh.linebuf_index < 127 = omega (arith, lt, h.index) in
    record {
      line = subst IsLine (add_char-room c sh lt') (add_char-IsLine c sh h.line);
      index = omega (arith, h.index, length-append s (c ∷ []));
      spells =
          Spells-snoc sh.linebuf s c 0 sh.linebuf_index (omega (arith, h.index))
            (omega (arith, h.line.sized, lt')) (h.line.ended (suc sh.linebuf_index) (omega arith))
            h.spells;
    }

-- The shell behind the typing, with the buffer it has then.
record AfterTyping (lim : Limits) (sh : Shell) (keys : List ℕ) (s : List ℕ) (rest : List ℕ)
    : Type 0 where
  buffer : List ℕ
  runs :
      take_chars lim (keys ++ rest) sh
      ≡ take_chars lim rest
          (record sh { linebuf = buffer; linebuf_index = length s; vga = echo keys sh.vga })
  spells : Spells buffer 0 s

take_chars-cons :
    (lim : Limits) (c : ℕ) (keys : List ℕ) (sh sh' : Shell)
    → take_char lim c sh ≡ some sh'
    → take_chars lim (c ∷ keys) sh ≡ take_chars lim keys sh'
unfolding take_chars
take_chars-cons lim c keys sh sh' e = rw (e, take_chars) refl

append_one : (pre : List ℕ) (c : ℕ) (keys : List ℕ) → (pre ++ c ∷ []) ++ keys ≡ pre ++ c ∷ keys
append_one [] c keys = refl
append_one (x ∷ pre) c keys = ap (λ i. x ∷ i) (append_one pre c keys)

typing :
    (lim : Limits) (sh : Shell) (pre keys rest : List ℕ)
    → Plain keys
    → length pre + length keys ≤ 127
    → Typed sh pre
    → AfterTyping lim sh keys (pre ++ keys) rest
unfolding echo
typing lim sh pre [] rest plain le h =
    subst (λ s. AfterTyping lim sh [] s rest) (sym (append_nil pre))
      (record {
        buffer = sh.linebuf;
        runs = ap (λ i. take_chars lim rest (record sh { linebuf_index = i })) h.index;
        spells = h.spells;
      })
typing lim sh pre (c ∷ keys) rest plain le h =
    let lt : length pre < 127 = omega arith in
    let sh' = with_char c sh in
    let ih =
      typing lim sh' (pre ++ c ∷ []) keys rest plain.1
        (omega (arith, le, length-append pre (c ∷ []))) (with_char-Typed c sh pre lt h) in
    let first = take_chars-cons lim c (keys ++ rest) sh sh' (
      take_plain lim c sh plain.0.1.0 plain.0.1.1
      ∙ ap some (add_char-room c sh (omega (arith, lt, h.index)))) in
    subst (λ s. AfterTyping lim sh (c ∷ keys) s rest) (append_one pre c keys)
      (record { buffer = ih.buffer; runs = first ∙ ih.runs; spells = ih.spells })

Plain-NoNul : (s : List ℕ) → Plain s → NoNul s
Plain-NoNul [] h = tt
Plain-NoNul (c ∷ s) h = (h.0.0, Plain-NoNul s h.1)

some_or : (o : Option Shell) → (elim o [ none ↦ none | some sh ↦ some sh ]) ≡ o
some_or none = refl
some_or (some sh) = refl

-- What the Enter key does with a line in the buffer.
enter-runs :
    (lim : Limits) (sh : Shell) (c : ℕ) (s : List ℕ)
    → c ≢ 0
    → length (c ∷ s) ≤ 128
    → NoNul (c ∷ s)
    → Spells sh.linebuf 0 (c ∷ s)
    → take_chars lim (10 ∷ []) sh
      ≡ clear_line (
          run_command lim
            (first_word (c ∷ s))
            (record sh { spawn_arg = after_space (c ∷ s); vga = print (10 ∷ []) sh.vga })
            (look_up (first_word (c ∷ s)) commands))
unfolding take_chars take_char enter_line dispatch
enter-runs lim sh c s nonnull le nonul h =
    let full : (get_or sh.linebuf 0 0 == 0) ≡ false = ground (arith, nonnull, h.0) in
    let word = command_word-first_word sh.linebuf (c ∷ s) le nonul h in
    let arg = argument-after_space sh.linebuf (c ∷ s) le nonul h in
    let at : List ℕ → List ℕ → Option Shell = λ w a. clear_line (
      run_command lim w (record sh { spawn_arg = a; vga = print (10 ∷ []) sh.vga })
        (look_up w commands)) in
    some_or (enter_line lim sh)
    ∙ (ap clear_line (rw full refl)
        ∙ (ap (λ w. at w (argument sh.linebuf)) word ∙ ap (at (first_word (c ∷ s))) arg))

-- The shell in front of the command that a line of text names: the text is in the buffer and on the
-- screen, the screen has gone to a new line, and the argument is what stands behind the first space.
abbrev pub ready_for : Shell → (text buffer : List ℕ) → Shell
ready_for sh text buffer = record sh {
  linebuf = buffer;
  linebuf_index = length text;
  spawn_arg = after_space text;
  vga = print (10 ∷ []) (echo text sh.vga);
}

-- Typing a line at an empty prompt, of 1 to 127 characters other than NUL, backspace and line feed,
-- and then Enter: each character is printed, the command is looked up by the first word of the line
-- and run, found or not, with the rest behind the first space as its argument, while the buffer holds
-- the line; then the line is cleared.
pub take_chars-run_command :
    (lim : Limits) (sh : Shell) (c : ℕ) (s : List ℕ)
    → Plain (c ∷ s)
    → length (c ∷ s) ≤ 127
    → IsLine sh
    → sh.linebuf_index ≡ 0
    → (buffer : List ℕ) × (Spells buffer 0 (c ∷ s)
        × (take_chars lim (c ∷ s ++ 10 ∷ []) sh
            ≡ clear_line (
                run_command lim
                  (first_word (c ∷ s))
                  (ready_for sh (c ∷ s) buffer)
                  (look_up (first_word (c ∷ s)) commands))))
take_chars-run_command lim sh c s plain le line empty =
    let blank : Typed sh [] = record {
      line = line;
      index = empty;
      spells = line.ended 0 (omega (arith, empty));
    } in
    let typed = typing lim sh [] (c ∷ s) (10 ∷ []) plain (omega arith) blank in
    (
      typed.buffer,
      (
        typed.spells,
        typed.runs
            ∙ enter-runs lim _ c s plain.0.0 (omega arith) (Plain-NoNul (c ∷ s) plain) typed.spells,
      ),
    )
