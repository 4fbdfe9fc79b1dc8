-- ===== src/Pelikan/Create.antt =====
-- `create_task` and `spawn_reaper` of pelikanOS/src/scheduler.c, over the heap, the frames, the page
-- tables, the ready queue and the ring. Headers, tasks and words are three views of the memory; the
-- blocks and frames that they lie in are apart.

pub mod Stack
pub mod Housed
pub mod Enlisted
pub mod Created
pub mod Spawned
mod Tests
use systems_programming_proj.Prelude.{
  ℕ, ◌+◌, ◌-◌, ◌%◌, ◌^◌, Option, none, some, List, ◌==◌, if◌then◌else◌,
}
use systems_programming_proj.Pelikan.Tasks.{blocked, Task, update}
use systems_programming_proj.Pelikan.Scheduler.{Kernel, make_ready}
use systems_programming_proj.Pelikan.Ring.{insert_task}
use systems_programming_proj.Pelikan.Pmm.{pmm_alloc_contiguous}
use systems_programming_proj.Pelikan.Kheap.{
  KernelHeap, Outcome, returns, halts, unfinished, kmalloc,
}
use systems_programming_proj.Pelikan.Vmm.{Words, put_word, vmm_unmap_page}

-- The globals of the scheduler and of what it calls. The frames are those of the heap.
pub record Os : Type 0 where
  pub kernel : Kernel
  pub last_inserted : ℕ
  pub num_of_tasks : ℕ
  pub heap : KernelHeap
  pub page_directory : ℕ
  pub words : Words

-- `sizeof(task_t)`
abbrev pub task_size : ℕ
task_size = 44

-- `*(--stack_top) = word`
abbrev pub down : ℕ → ℕ
down stack_top = (stack_top + (2 ^ 32 - 4)) % 2 ^ 32

unfoldable pub push : ℕ → ℕ × Words → ℕ × Words
push word (stack_top, words) = (down stack_top, put_word (down stack_top) word words)

-- What `swtch` pops when the task runs for the first time.
unfoldable pub first_frame : (code : ℕ) → ℕ × Words → ℕ × Words
first_frame code stack = push 0 (push 0 (push 0 (push 0 (push 0x202 (push code stack)))))

abbrev pub new_task : (code id page_directory stack_base esp : ℕ) → Task
new_task code id page_directory stack_base esp = record {
  esp = esp;
  eip = code;
  page_directory = page_directory;
  state = blocked;
  stack_base = stack_base;
  id = id;
  next = 0;
  prev = 0;
  ready_next = 0;
  mutex_wait_next = 0;
  dead_next = 0;
}

-- The task enters the queue or becomes the reaper, by its type.
unfoldable pub enter : (type task : ℕ) → Kernel → Kernel
enter type task k =
    if type == 1
    then record k { reaper_task = task }
    else if type == 0
    then make_ready task k
    else k

unfoldable pub enlist : (task : ℕ) → Os → Os
enlist task os =
    let (last, tasks) = insert_task task os.last_inserted os.kernel.tasks in
    record os {
      kernel = record os.kernel { tasks = tasks };
      last_inserted = last;
      num_of_tasks = os.num_of_tasks + 1;
    }

unfoldable pub with_stack : (code id type task : ℕ) → KernelHeap → Os → ℕ × List ℕ → Os
with_stack code id type task heap os (base, frames) =
    let paging =
      vmm_unmap_page base
        (record { page_directory = os.page_directory; words = os.words; frames = frames }) in
    let stack_base = (base + 4096) % 2 ^ 32 in
    let (esp, words) = first_frame code ((stack_base + 4096) % 2 ^ 32, paging.words) in
    let t = new_task code id os.page_directory stack_base esp in
    let k = record os.kernel { tasks = update task (λ u. t) os.kernel.tasks } in
    enlist task (record os {
      kernel = enter type task k;
      heap = record heap { frames = frames };
      words = words;
    })

unfoldable pub with_block : (code id type : ℕ) → Os → Outcome → Option (ℕ × Os)
with_block code id type os (returns task heap) =
    some (task, with_stack code id type task heap os (pmm_alloc_contiguous 2 heap.frames))
with_block code id type os halts = none
with_block code id type os unfinished = none

-- `none` when `kmalloc` halts or the fuel for its search was too little.
unfoldable pub create_task : (fuel code id type : ℕ) → Os → Option (ℕ × Os)
create_task fuel code id type os = with_block code id type os (kmalloc fuel task_size os.heap)

unfoldable pub spawn_reaper : (fuel reaper_thread : ℕ) → Os → Option (ℕ × Os)
spawn_reaper fuel reaper_thread os = create_task fuel reaper_thread 99 1 os
