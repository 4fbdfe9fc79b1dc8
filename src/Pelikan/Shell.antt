-- ===== src/Pelikan/Shell.antt =====
-- pelikanOS/src/shell.c: the line editor, the split of a line and the commands. A string is the list
-- of its bytes up to the NUL; the buffers are lists of 129 bytes. The functions that a spawned task
-- runs are known by their addresses.
pub mod Line
pub mod Split
pub mod Typing
mod Tests
use systems_programming_proj.Prelude.{
  ℕ, zero, suc, ◌+◌, ◌-◌, Bool, true, false, ◌&&◌, ◌||◌, not, Option, none, some, List, [], ◌∷◌,
  length, get_or, set, replicate, ltb, ◌==◌, if◌then◌else◌,
}
use systems_programming_proj.Prelude.Int.{ℤ, pos, negsuc}
use systems_programming_proj.Pelikan.Cstring.{strcmp, memset}
use systems_programming_proj.Pelikan.Itoa.{itoa}
use systems_programming_proj.Pelikan.Vga.{Vga, print, remove_char}
use systems_programming_proj.Pelikan.Pmm.{pmm_free_count}
use systems_programming_proj.Pelikan.Ring.{scheduler_list_tasks}
use systems_programming_proj.Pelikan.Create.{Os, create_task}
use systems_programming_proj.Pelikan.Keyboard.{Rb, ringbuf_pop}

pub record Shell : Type 0 where
  pub linebuf : List ℕ
  pub linebuf_index : ℕ
  pub spawn_arg : List ℕ
  pub next_spawn_id : ℕ
  pub vga : Vga
  pub os : Os

abbrev pub buffer_size : ℕ
buffer_size = 129

pub data Command : Type 0 where
  help : Command
  clear : Command
  ps : Command
  mem : Command
  spawn : Command

abbrev pub commands : List (List ℕ × Command)
commands =
    ((b'h' ∷ b'e' ∷ b'l' ∷ b'p' ∷ []), help)
    ∷ ((b'c' ∷ b'l' ∷ b'e' ∷ b'a' ∷ b'r' ∷ []), clear)
    ∷ ((b'p' ∷ b's' ∷ []), ps)
    ∷ ((b'm' ∷ b'e' ∷ b'm' ∷ []), mem)
    ∷ ((b's' ∷ b'p' ∷ b'a' ∷ b'w' ∷ b'n' ∷ []), spawn)
    ∷ []

-- The names of the tasks that can be spawned, with the addresses of their functions.
abbrev pub spawnables : (worker_counter worker_once : ℕ) → List (List ℕ × ℕ)
spawnables worker_counter worker_once =
    ((b'c' ∷ b'o' ∷ b'u' ∷ b'n' ∷ b't' ∷ b'e' ∷ b'r' ∷ []), worker_counter)
    ∷ ((b'o' ∷ b'n' ∷ b'c' ∷ b'e' ∷ []), worker_once)
    ∷ []

unfoldable pub is_zero : ℤ → Bool
is_zero (pos n) = n == 0
is_zero (negsuc n) = false

-- The search in a table by `strcmp`.
unfoldable pub look_up {ℓ} : {A : Type ℓ} → List ℕ → List (List ℕ × A) → Option A
look_up name [] = none
look_up name ((key, a) ∷ table) =
    let rest = look_up name table in if is_zero (strcmp name key) then some a else rest

unfoldable pub print_names {ℓ} :
    {A : Type ℓ} → (before after : List ℕ) → List (List ℕ × A) → Vga → Vga
print_names before after [] vga = vga
print_names before after ((name, a) ∷ table) vga =
    print_names before after table (print after (print name (print before vga)))

unfoldable pub cmd_help : (worker_counter worker_once : ℕ) → Vga → Vga
cmd_help worker_counter worker_once vga = print (10 ∷ []) (
    print_names [] (b' ' ∷ []) (spawnables worker_counter worker_once) (
      print (b's' ∷ b'p' ∷ b'a' ∷ b'w' ∷ b'n' ∷ b'a' ∷ b'b' ∷ b'l' ∷ b'e' ∷ b':' ∷ b' ' ∷ []) (
        print_names (b' ' ∷ b' ' ∷ []) (10 ∷ []) commands
          (print (b'c' ∷ b'o' ∷ b'm' ∷ b'm' ∷ b'a' ∷ b'n' ∷ b'd' ∷ b's' ∷ b':' ∷ 10 ∷ []) vga))))

unfoldable pub repeat : ℕ → (Vga → Vga) → Vga → Vga
repeat zero f vga = vga
repeat (suc n) f vga = repeat n f (f vga)

unfoldable pub cmd_clear : Vga → Vga
cmd_clear vga = repeat 2000 remove_char vga

unfoldable pub cmd_ps : (rounds : ℕ) → Os → Vga → Option Vga
cmd_ps rounds os vga =
    scheduler_list_tasks rounds os.last_inserted os.kernel.current_task os.kernel.tasks vga

unfoldable pub cmd_mem : Os → Vga → Vga
cmd_mem os vga = print (10 ∷ []) (
    print (itoa (pmm_free_count os.heap.frames)) (
      print
        (b'f' ∷ b'r' ∷ b'e' ∷ b'e' ∷ b' ' ∷ b'f' ∷ b'r' ∷ b'a' ∷ b'm' ∷ b'e' ∷ b's' ∷ b':' ∷ b' '
          ∷ [])
        vga))

-- The message behind a call of `create_task`, and the next id.
unfoldable pub report_spawn : Shell → Option (ℕ × Os) → Option Shell
report_spawn sh none = none
report_spawn sh (some (task, os)) = some (record sh {
  os = os;
  vga = print (10 ∷ []) (
      print (itoa sh.next_spawn_id) (
        print (39 ∷ b' ' ∷ b'a' ∷ b's' ∷ b' ' ∷ b'i' ∷ b'd' ∷ b' ' ∷ []) (
          print sh.spawn_arg
            (print (b's' ∷ b'p' ∷ b'a' ∷ b'w' ∷ b'n' ∷ b'e' ∷ b'd' ∷ b' ' ∷ 39 ∷ []) sh.vga))));
  next_spawn_id = sh.next_spawn_id + 1;
})

unfoldable pub spawn_found : (fuel : ℕ) → Shell → Option ℕ → Option Shell
spawn_found fuel sh none = some (record sh {
  vga = print (10 ∷ []) (
      print sh.spawn_arg (
        print
          (b'n' ∷ b'o' ∷ b' ' ∷ b's' ∷ b'u' ∷ b'c' ∷ b'h' ∷ b' ' ∷ b't' ∷ b'a' ∷ b's' ∷ b'k' ∷ b':'
            ∷ b' ' ∷ [])
          sh.vga));
})
spawn_found fuel sh (some code) = report_spawn sh (create_task fuel code sh.next_spawn_id 0 sh.os)

unfoldable pub cmd_spawn : (fuel worker_counter worker_once : ℕ) → Shell → Option Shell
cmd_spawn fuel worker_counter worker_once sh =
    let found =
      spawn_found fuel sh (look_up sh.spawn_arg (spawnables worker_counter worker_once)) in
    if length sh.spawn_arg == 0
    then some (record sh {
      vga =
          print
            (b'u' ∷ b's' ∷ b'a' ∷ b'g' ∷ b'e' ∷ b':' ∷ b' ' ∷ b's' ∷ b'p' ∷ b'a' ∷ b'w' ∷ b'n'
              ∷ b' ' ∷ b'<' ∷ b'n' ∷ b'a' ∷ b'm' ∷ b'e' ∷ b'>' ∷ 10 ∷ [])
            sh.vga;
    })
    else found

-- The two loops of `dispatch` from an index on, over the bytes that the target has room for.
unfoldable pub word_from : (remaining i : ℕ) → List ℕ → List ℕ
word_from zero i line = []
word_from (suc remaining) i line =
    let rest = word_from remaining (suc i) line in
    let c = get_or line i 0 in if (c == 0) || (c == 32) then [] else c ∷ rest

unfoldable pub rest_from : (remaining i : ℕ) → List ℕ → List ℕ
rest_from zero i line = []
rest_from (suc remaining) i line =
    let rest = rest_from remaining (suc i) line in
    let c = get_or line i 0 in if c == 0 then [] else c ∷ rest

unfoldable pub command_word : List ℕ → List ℕ
command_word line = word_from 128 0 line

unfoldable pub argument : List ℕ → List ℕ
argument line =
    let i = length (command_word line) in
    if get_or line i 0 == 32 then rest_from 128 (suc i) line else []

-- The bounds of the searches, and the addresses of the functions.
pub record Limits : Type 0 where
  pub fuel : ℕ
  pub rounds : ℕ
  pub worker_counter : ℕ
  pub worker_once : ℕ

unfoldable pub on_vga : Shell → Option Vga → Option Shell
on_vga sh none = none
on_vga sh (some vga) = some (record sh { vga = vga })

unfoldable pub run_command : Limits → (cmd : List ℕ) → Shell → Option Command → Option Shell
run_command lim cmd sh none = some (record sh {
  vga = print (10 ∷ []) (
      print cmd (
        print
          (b'u' ∷ b'n' ∷ b'k' ∷ b'n' ∷ b'o' ∷ b'w' ∷ b'n' ∷ b' ' ∷ b'c' ∷ b'o' ∷ b'm' ∷ b'm' ∷ b'a'
            ∷ b'n' ∷ b'd' ∷ b' ' ∷ b':' ∷ b' ' ∷ [])
          sh.vga));
})
run_command lim cmd sh (some help) =
    some (record sh { vga = cmd_help lim.worker_counter lim.worker_once sh.vga })
run_command lim cmd sh (some clear) = some (record sh { vga = cmd_clear sh.vga })
run_command lim cmd sh (some ps) = on_vga sh (cmd_ps lim.rounds sh.os sh.vga)
run_command lim cmd sh (some mem) = some (record sh { vga = cmd_mem sh.os sh.vga })
run_command lim cmd sh (some spawn) = cmd_spawn lim.fuel lim.worker_counter lim.worker_once sh

unfoldable pub dispatch : Limits → (line : List ℕ) → Shell → Option Shell
dispatch lim line sh =
    let cmd = command_word line in
    let run =
      run_command lim cmd (record sh { spawn_arg = argument line }) (look_up cmd commands) in
    if get_or line 0 0 == 0 then some sh else run

unfoldable pub clear_line : Option Shell → Option Shell
clear_line none = none
clear_line (some sh) = elim (memset sh.linebuf 0 buffer_size) [
  | none ↦ none
  | some cleared ↦ some (record sh { linebuf = cleared; linebuf_index = 0 })
]

unfoldable pub backspace : Shell → Shell
backspace sh =
    if ltb 0 sh.linebuf_index
    then record sh {
      linebuf = set sh.linebuf (sh.linebuf_index - 1) 0;
      linebuf_index = sh.linebuf_index - 1;
      vga = remove_char sh.vga;
    }
    else sh

unfoldable pub add_char : ℕ → Shell → Shell
add_char c sh =
    if ltb sh.linebuf_index 127
    then record sh {
      linebuf = set sh.linebuf sh.linebuf_index c;
      linebuf_index = sh.linebuf_index + 1;
      vga = print (c ∷ []) sh.vga;
    }
    else sh

unfoldable pub enter_line : Limits → Shell → Option Shell
enter_line lim sh =
    clear_line (dispatch lim sh.linebuf (record sh { vga = print (10 ∷ []) sh.vga }))

-- A round of the loop of `shell_run` that got a byte.
unfoldable pub take_char : Limits → ℕ → Shell → Option Shell
take_char lim c sh =
    let entered = enter_line lim sh in
    if c == 8 then some (backspace sh) else if c == 10 then entered else some (add_char c sh)

unfoldable pub take_chars : Limits → List ℕ → Shell → Option Shell
take_chars lim [] sh = some sh
take_chars lim (c ∷ keys) sh = elim (take_char lim c sh) [
  | none ↦ none
  | some sh' ↦ take_chars lim keys sh'
]

-- A round of the loop, with the keyboard's buffer.
unfoldable pub poll : Limits → Option ℕ × Rb → Shell → Option (Shell × Rb)
poll lim (none, rb) sh = some (sh, rb)
poll lim (some c, rb) sh = elim (take_char lim c sh) [ none ↦ none | some sh' ↦ some (sh', rb) ]

unfoldable pub shell_round : Limits → Rb → Shell → Option (Shell × Rb)
shell_round lim rb sh = poll lim (ringbuf_pop rb) sh
