-- ===== src/Pelikan/Shell/Tests.antt =====
-- The shell of pelikanOS/src/shell.c at a concrete state.
use systems_programming_proj.Prelude.{
  ℕ, ◌≤◌, some, List, [], ◌∷◌, ◌++◌, replicate, get_or-replicate, ◌≡◌, refl, ◌≢◌, arith,
}
use systems_programming_proj.Pelikan.Create.{Os, new_task}
use systems_programming_proj.Pelikan.Shell.{
  Shell, Limits, spawn, commands, is_zero, look_up, clear_line, run_command, take_chars,
}
use systems_programming_proj.Pelikan.Cstring.{strcmp}
use systems_programming_proj.Pelikan.Shell.Line.{IsLine, LineAfter, take_chars-LineAfter}
use systems_programming_proj.Pelikan.Shell.Split.{Spells, first_word, after_space}
use systems_programming_proj.Pelikan.Shell.Typing.{ready_for, take_chars-run_command}

abbrev os : Os
os = record {
  kernel = record {
    tasks = λ p. new_task 0 0 0 0 0;
    queue = record { head = 0; tail = 0 };
    dead_q = record { head = 0; tail = 0 };
    current_task = 0;
    reaper_task = 0;
  };
  last_inserted = 0;
  num_of_tasks = 0;
  heap = record {
    head = 0;
    blocks = λ p. record { size = 0; free = 0; magic = 0; next = 0; prev = 0 };
    frames = replicate 4096 255;
  };
  page_directory = 0;
  words = λ p. 0;
}

abbrev prompt : Shell
prompt = record {
  linebuf = replicate 129 0;
  linebuf_index = 0;
  spawn_arg = [];
  next_spawn_id = 100;
  vga = record { row = 0; col = 0; cells = replicate 2000 32 };
  os = os;
}

abbrev limits : Limits
limits = record { fuel = 10; rounds = 10; worker_counter = 1114112; worker_once = 1114128 }

prompt-IsLine : IsLine prompt
prompt-IsLine = record {
  sized = refl;
  room = omega arith;
  ended = λ j le. get_or-replicate 129 j 0;
}

-- A character, a backspace too many, and an empty line.
take_chars-LineAfter_example : LineAfter (take_chars limits (b'a' ∷ 8 ∷ 8 ∷ 10 ∷ []) prompt)
take_chars-LineAfter_example =
    take_chars-LineAfter limits (b'a' ∷ 8 ∷ 8 ∷ 10 ∷ []) prompt prompt-IsLine

abbrev line : List ℕ
line = b's' ∷ b'p' ∷ b'a' ∷ b'w' ∷ b'n' ∷ b' ' ∷ b'x' ∷ []

line_split :
    (first_word line ≡ b's' ∷ b'p' ∷ b'a' ∷ b'w' ∷ b'n' ∷ []) × (after_space line ≡ b'x' ∷ [])
unfolding first_word after_space
line_split = (refl, refl)

found : look_up (b's' ∷ b'p' ∷ b'a' ∷ b'w' ∷ b'n' ∷ []) commands ≡ some spawn
unfolding look_up is_zero strcmp systems_programming_proj.Prelude.Int.◌-ℤ◌
found = refl

plain : (c : ℕ) → 32 ≤ c → (c ≢ 0) × ((c ≢ 8) × (c ≢ 10))
plain c le = (λ e. omega (arith, e, le), (λ e. omega (arith, e, le), λ e. omega (arith, e, le)))

take_chars-run_command_example :
    (buffer : List ℕ) × (Spells buffer 0 line
      × (take_chars limits (line ++ 10 ∷ []) prompt
          ≡ clear_line (
              run_command limits
                (first_word line)
                (ready_for prompt line buffer)
                (look_up (first_word line) commands))))
take_chars-run_command_example =
    take_chars-run_command limits prompt b's' (b'p' ∷ b'a' ∷ b'w' ∷ b'n' ∷ b' ' ∷ b'x' ∷ [])
      (
        plain b's' (omega arith),
        (
          plain b'p' (omega arith),
          (
            plain b'a' (omega arith),
            (
              plain b'w' (omega arith),
              (
                plain b'n' (omega arith),
                (plain b' ' (omega arith), (plain b'x' (omega arith), tt)),
              ),
            ),
          ),
        ),
      )
      (omega arith) prompt-IsLine refl
