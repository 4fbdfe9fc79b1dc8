-- ===== src/Pelikan/Reap.antt =====
-- What `reaper_thread` of pelikanOS/src/scheduler.c gives back: the task leaves the ring, the guard page
-- is mapped again, and the two frames of the stack and the block of the task become free.
pub mod GivenBack
mod Tests
use systems_programming_proj.Prelude.{
  ℕ, ◌+◌, ◌-◌, ◌%◌, ◌^◌, Option, none, some, List, ◌==◌, if◌then◌else◌,
}
use systems_programming_proj.Pelikan.Scheduler.{reap}
use systems_programming_proj.Pelikan.Ring.{remove_task_from_circular_list}
use systems_programming_proj.Pelikan.Pmm.{pmm_free_frame}
use systems_programming_proj.Pelikan.Kheap.{kfree}
use systems_programming_proj.Pelikan.Vmm.{Paging, vmm_map_page}
use systems_programming_proj.Pelikan.Create.{Os}

unfoldable pub leave_ring : (corpse : ℕ) → Os → Os
leave_ring corpse os =
    let (last, tasks) = remove_task_from_circular_list corpse os.last_inserted os.kernel.tasks in
    record os { kernel = record os.kernel { tasks = tasks }; last_inserted = last }

unfoldable pub free_both : (guard stack_base : ℕ) → List ℕ → Option (List ℕ)
free_both guard stack_base frames = elim (pmm_free_frame guard frames) [
  | none ↦ none
  | some freed ↦ pmm_free_frame stack_base freed
]

unfoldable pub give_back : (corpse : ℕ) → Os → Paging → Option (List ℕ) → Option Os
give_back corpse os paging none = none
give_back corpse os paging (some frames) = some (record os {
  page_directory = paging.page_directory;
  words = paging.words;
  heap = kfree corpse (record os.heap { frames = frames });
})

-- The frames of the page tables are those of the heap. `none` where a frame behind the bitmap is freed.
unfoldable pub clean_up : (corpse : ℕ) → Os → Option Os
clean_up corpse os =
    let os₁ = leave_ring corpse os in
    let stack_base = (os₁.kernel.tasks corpse).stack_base in
    let guard = (stack_base + (2 ^ 32 - 4096)) % 2 ^ 32 in
    let paging = vmm_map_page guard guard (record {
      page_directory = os₁.page_directory;
      words = os₁.words;
      frames = os₁.heap.frames;
    }) in
    give_back corpse os₁ paging (free_both guard stack_base paging.frames)

-- A round of the loop: the reaper blocks when there is no corpse.
unfoldable pub reaper_round : Os → Option Os
reaper_round os =
    let corpse = os.kernel.dead_q.head in
    let taken = record os { kernel = reap os.kernel } in
    let cleaned = clean_up corpse taken in if corpse == 0 then some taken else cleaned
