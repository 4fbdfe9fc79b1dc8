-- ===== src/Pelikan/Shell/Line.antt =====
-- The line buffer of pelikanOS/src/shell.c under every key.
use mathlib.Core.Path.{subst}
use systems_programming_proj.Prelude.{
  ℕ, ◌+◌, ◌-◌, ◌<◌, ◌≤◌, Option, none, some, List, [], ◌∷◌, length, get_or, set, length-set,
  get_or-set_self, get_or-set_ne, get_or-past, ltb, ◌==◌, ◌≡◌, refl, sym, ap, ◌∙◌, ◌≢◌, inl, inr,
  Bool-cases, Option-cases, ==_iff, arith,
}
use systems_programming_proj.Pelikan.Cstring.Laws.{Copied, memset-Copied}
use systems_programming_proj.Pelikan.Create.{Os}
use systems_programming_proj.Pelikan.Vga.{Vga, print, remove_char}
use systems_programming_proj.Pelikan.Shell.{
  Shell, buffer_size, Command, help, clear, ps, mem, spawn, Limits, report_spawn, spawn_found,
  cmd_spawn, on_vga, run_command, dispatch, clear_line, backspace, add_char, enter_line, take_char,
  take_chars,
}

-- The buffer has room for the NUL behind the line, and is NUL from the end of the line on.
pub record IsLine (sh : Shell) : Type 0 where
  pub sized : length sh.linebuf ≡ buffer_size
  pub room : sh.linebuf_index ≤ 127
  pub ended : (j : ℕ) → sh.linebuf_index ≤ j → get_or sh.linebuf j 0 ≡ 0

-- The same of a run that may stop, and of the buffer after a command.
abbrev pub LineAfter : Option Shell → Type 0
LineAfter none = Unit
LineAfter (some sh) = IsLine sh

abbrev Keeps : List ℕ → Option Shell → Type 0
Keeps l none = Unit
Keeps l (some sh) = sh.linebuf ≡ l

report_spawn-Keeps : (sh : Shell) (o : Option (ℕ × Os)) → Keeps sh.linebuf (report_spawn sh o)
unfolding report_spawn
report_spawn-Keeps sh none = tt
report_spawn-Keeps sh (some (task, os)) = refl

spawn_found-Keeps :
    (fuel : ℕ) (sh : Shell) (o : Option ℕ) → Keeps sh.linebuf (spawn_found fuel sh o)
unfolding spawn_found
spawn_found-Keeps fuel sh none = refl
spawn_found-Keeps fuel sh (some code) = report_spawn-Keeps sh _

cmd_spawn-Keeps : (fuel a b : ℕ) (sh : Shell) → Keeps sh.linebuf (cmd_spawn fuel a b sh)
unfolding cmd_spawn
cmd_spawn-Keeps fuel a b sh = elim (Bool-cases (length sh.spawn_arg == 0)) [
  | inl e ↦ rw e refl
  | inr e ↦ rw e (spawn_found-Keeps fuel sh _)
]

on_vga-Keeps : (sh : Shell) (o : Option Vga) → Keeps sh.linebuf (on_vga sh o)
unfolding on_vga
on_vga-Keeps sh none = tt
on_vga-Keeps sh (some vga) = refl

run_command-Keeps :
    (lim : Limits) (cmd : List ℕ) (sh : Shell) (o : Option Command)
    → Keeps sh.linebuf (run_command lim cmd sh o)
unfolding run_command
run_command-Keeps lim cmd sh none = refl
run_command-Keeps lim cmd sh (some help) = refl
run_command-Keeps lim cmd sh (some clear) = refl
run_command-Keeps lim cmd sh (some ps) = on_vga-Keeps sh _
run_command-Keeps lim cmd sh (some mem) = refl
run_command-Keeps lim cmd sh (some spawn) = cmd_spawn-Keeps _ _ _ sh

dispatch-Keeps :
    (lim : Limits) (line : List ℕ) (sh : Shell) → Keeps sh.linebuf (dispatch lim line sh)
unfolding dispatch
dispatch-Keeps lim line sh = elim (Bool-cases (get_or line 0 0 == 0)) [
  | inl e ↦ rw e refl
  | inr e ↦ rw e (run_command-Keeps lim _ _ _)
]

-- The buffer behind `memset`.
cleared-IsLine :
    (sh : Shell) (b : List ℕ)
    → length sh.linebuf ≡ buffer_size
    → Copied (λ j. 0) sh.linebuf buffer_size b
    → IsLine (record sh { linebuf = b; linebuf_index = 0 })
cleared-IsLine sh b sized zeros = record {
  sized = zeros.sized ∙ sized;
  room = omega arith;
  ended = λ j le. elim (Bool-cases (ltb j buffer_size)) [
    | inl e ↦ zeros.copied j (ground (arith, e))
    | inr e ↦
        let past : buffer_size ≤ j = ground (arith, e) in
        get_or-past b j 0 (omega (arith, zeros.sized, sized, past))
  ];
}

clear_line-LineAfter :
    (l : List ℕ) (o : Option Shell) → length l ≡ buffer_size → Keeps l o → LineAfter (clear_line o)
unfolding clear_line
clear_line-LineAfter l none sized h = tt
clear_line-LineAfter l (some sh) sized h =
    let long : length sh.linebuf ≡ buffer_size = ap length h ∙ sized in
    let (b, (e, zeros)) = memset-Copied sh.linebuf 0 buffer_size (omega (arith, long)) in
    rw (e, clear_line) (cleared-IsLine sh b long zeros)

pub add_char-IsLine : (c : ℕ) (sh : Shell) → IsLine sh → IsLine (add_char c sh)
unfolding add_char
add_char-IsLine c sh h = elim (Bool-cases (ltb sh.linebuf_index 127)) [
  | inl e ↦
      let lt : sh.linebuf_index < 127 = ground (arith, e) in
      let added : IsLine (record sh {
        linebuf = set sh.linebuf sh.linebuf_index c;
        linebuf_index = sh.linebuf_index + 1;
        vga = print (c ∷ []) sh.vga;
      }) =
        record {
          sized = length-set sh.linebuf sh.linebuf_index c ∙ h.sized;
          room = omega (arith, lt);
          ended = λ j le.
              get_or-set_ne sh.linebuf sh.linebuf_index j c 0 (λ f. omega (arith, f, le))
              ∙ h.ended j (omega (arith, le));
        } in
      simp (e) added
  | inr e ↦ simp (e) h
]

backspace-IsLine : (sh : Shell) → IsLine sh → IsLine (backspace sh)
unfolding backspace
backspace-IsLine sh h = elim (Bool-cases (ltb 0 sh.linebuf_index)) [
  | inl e ↦
      let pos : 0 < sh.linebuf_index = ground (arith, e) in
      let last = sh.linebuf_index - 1 in
      let removed : IsLine (record sh {
        linebuf = set sh.linebuf last 0;
        linebuf_index = last;
        vga = remove_char sh.vga;
      }) =
        record {
          sized = length-set sh.linebuf last 0 ∙ h.sized;
          room = omega (arith, h.room);
          ended = λ j le. elim (Bool-cases (last == j)) [
            | inl f ↦
                let same : last ≡ j = (==_iff last j).0 f in
                ap (λ i. get_or (set sh.linebuf last 0) i 0) (sym same)
                ∙ get_or-set_self sh.linebuf last 0 0 (omega (arith, h.sized, h.room, pos))
            | inr f ↦
                let ne : last ≢ j = ground (arith, f) in
                get_or-set_ne sh.linebuf last j 0 0 ne ∙ h.ended j (omega (arith, le, ne))
          ];
        } in
      simp (e) removed
  | inr e ↦ simp (e) h
]

enter_line-LineAfter : (lim : Limits) (sh : Shell) → IsLine sh → LineAfter (enter_line lim sh)
unfolding enter_line
enter_line-LineAfter lim sh h =
    clear_line-LineAfter sh.linebuf _ h.sized (dispatch-Keeps lim sh.linebuf _)

take_char-LineAfter :
    (lim : Limits) (c : ℕ) (sh : Shell) → IsLine sh → LineAfter (take_char lim c sh)
unfolding take_char
take_char-LineAfter lim c sh h = elim (Bool-cases (c == 8)) [
  | inl e ↦ rw e (backspace-IsLine sh h)
  | inr e ↦ elim (Bool-cases (c == 10)) [
    | inl f ↦ rw (e, f) (enter_line-LineAfter lim sh h)
    | inr f ↦ rw (e, f) (add_char-IsLine c sh h)
  ]
]

-- Whatever keys come, the line of the shell stays inside its buffer of 129 bytes: at most 127
-- characters are kept, and from the end of the line on the buffer holds NUL, so that the loops of
-- `dispatch` meet one. This holds after each key, commands included, as long as the run goes on.
pub take_chars-LineAfter :
    (lim : Limits) (keys : List ℕ) (sh : Shell) → IsLine sh → LineAfter (take_chars lim keys sh)
unfolding take_chars
take_chars-LineAfter lim [] sh h = h
take_chars-LineAfter lim (c ∷ keys) sh h = elim (Option-cases (take_char lim c sh)) [
  | inl e ↦ rw (e, take_chars) tt
  | inr (sh', e) ↦
      rw (e, take_chars)
        (take_chars-LineAfter lim keys sh' (subst LineAfter e (take_char-LineAfter lim c sh h)))
]
