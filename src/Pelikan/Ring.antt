-- ===== src/Pelikan/Ring.antt =====
-- The ring of all tasks in pelikanOS/src/scheduler.c, which is linked both ways and which
-- `last_inserted` leads to; `scheduler_list_tasks` walks it. Interrupts are off while it changes.
pub mod Paths
pub mod Insert
pub mod Unlinked
pub mod Remove
pub mod Listing
mod Tests
use systems_programming_proj.Prelude.{
  ℕ, zero, suc, Option, none, some, List, [], ◌∷◌, ◌++◌, ◌==◌, if◌then◌else◌,
}
use systems_programming_proj.Pelikan.Tasks.{
  TaskState, blocked, ready, running, dead, Task, Store, update,
}
use systems_programming_proj.Pelikan.Itoa.{itoa}
use systems_programming_proj.Pelikan.Vga.{Vga, print}

abbrev pub set_next : ℕ → Task → Task
set_next x t = record t { next = x }

abbrev pub set_prev : ℕ → Task → Task
set_prev x t = record t { prev = x }

unfoldable pub insert_behind : (task last_inserted : ℕ) → Store → Store
insert_behind task last_inserted s =
    let first = (s last_inserted).next in
    let s₁ = update task (set_next first) s in
    let s₂ = update task (set_prev last_inserted) s₁ in
    let s₃ = update (s₂ last_inserted).next (set_prev task) s₂ in
    update last_inserted (set_next task) s₃

unfoldable pub insert_task : (task last_inserted : ℕ) → Store → ℕ × Store
insert_task task last_inserted s =
    if last_inserted == 0
    then (task, update task (set_prev task) (update task (set_next task) s))
    else (task, insert_behind task last_inserted s)

unfoldable pub unlink : ℕ → Store → Store
unlink task s =
    let s₁ = update (s task).prev (set_next (s task).next) s in
    update (s₁ task).next (set_prev (s₁ task).prev) s₁

abbrev pub detach : ℕ → Store → Store
detach task s = update task (set_prev 0) (update task (set_next 0) s)

unfoldable pub remove_task_from_circular_list : (task last_inserted : ℕ) → Store → ℕ × Store
remove_task_from_circular_list task last_inserted s =
    let s₁ = unlink task s in
    if (s task).next == task
    then (0, detach task s)
    else ((if last_inserted == task then (s₁ task).next else last_inserted), detach task s₁)

unfoldable pub state_name : TaskState → List ℕ
state_name blocked = (b'B' ∷ b'L' ∷ b'O' ∷ b'C' ∷ b'K' ∷ b'E' ∷ b'D' ∷ [])
state_name ready = (b'R' ∷ b'E' ∷ b'A' ∷ b'D' ∷ b'Y' ∷ [])
state_name running = (b'R' ∷ b'U' ∷ b'N' ∷ b'N' ∷ b'I' ∷ b'N' ∷ b'G' ∷ [])
state_name dead = (b'D' ∷ b'E' ∷ b'A' ∷ b'D' ∷ [])

unfoldable pub list_task : Task → Vga → Vga
list_task t vga = print (10 ∷ []) (
    print (state_name t.state) (
      print (b' ' ∷ b' ' ∷ b's' ∷ b't' ∷ b'a' ∷ b't' ∷ b'e' ∷ b':' ∷ b' ' ∷ [])
        (print (itoa t.id) (print (b'i' ∷ b'd' ∷ b':' ∷ b' ' ∷ []) vga))))

-- The loop of `scheduler_list_tasks`; `none` when the rounds do not suffice.
unfoldable pub list_from : (rounds current_task spawnpoint : ℕ) → Store → Vga → Option Vga
list_from zero current_task spawnpoint s vga = none
list_from (suc rounds) current_task spawnpoint s vga =
    let listed = list_task (s spawnpoint) vga in
    let rest = list_from rounds current_task (s spawnpoint).next s listed in
    if (s spawnpoint).next == current_task then some listed else rest

unfoldable pub scheduler_list_tasks :
    (rounds last_inserted current_task : ℕ) → Store → Vga → Option Vga
scheduler_list_tasks rounds last_inserted current_task s vga =
    if last_inserted == 0
    then some (print (b'n' ∷ b'o' ∷ b' ' ∷ b't' ∷ b'a' ∷ b's' ∷ b'k' ∷ b's' ∷ 10 ∷ []) vga)
    else list_from rounds current_task current_task s vga
