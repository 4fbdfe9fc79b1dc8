-- ===== src/Pelikan/Create/Spawned.antt =====
-- A task made by `create_task` of pelikanOS/src/scheduler.c, ready to run.
use mathlib.Core.Path.{subst}
use systems_programming_proj.Prelude.{
  ℕ, ◌+◌, ◌*◌, ◌%◌, ◌<◌, ◌≤◌, ◌^◌, some, List, [], ◌∷◌, ◌++◌, length, ◌≡◌, refl, sym, ap, ◌∙◌, ◌≢◌,
  arith,
}
use systems_programming_proj.Pelikan.Tasks.{ready, Task}
use systems_programming_proj.Pelikan.Tasks.Chain.{update_self}
use systems_programming_proj.Pelikan.Scheduler.{make_ready}
use systems_programming_proj.Pelikan.Pmm.{no_frame, pmm_alloc_frame, pmm_alloc_contiguous}
use systems_programming_proj.Pelikan.Pmm.Contiguous.{
  AllocatesRun, no_run, lowest_run, pmm_alloc_contiguous-AllocatesRun,
}
use systems_programming_proj.Pelikan.Kheap.{KernelHeap, Outcome, returns, kmalloc}
use systems_programming_proj.Pelikan.Kheap.Cells.{Cell}
use systems_programming_proj.Pelikan.Kheap.Serve.{kmalloc-Serves}
use systems_programming_proj.Pelikan.Vmm.{Words, vmm_unmap_page}
use systems_programming_proj.Pelikan.Create.{
  Os, task_size, first_frame, new_task, enter, enlist, with_stack, with_block, create_task,
}
use systems_programming_proj.Pelikan.Create.Housed.{Placed, Serves-Placed}
use systems_programming_proj.Pelikan.Create.Enlisted.{insert_task_field, make_ready_field}
use systems_programming_proj.Pelikan.Create.Stack.{FirstFrame, first_frame-FirstFrame}
use systems_programming_proj.Pelikan.Create.Created.{
  OsInv, kernel_with, before, enlisted-OsInv, frames-HeapInv,
}

-- The task is as asked for, and its stack pointer is in the upper of two new frames, at the words that
-- the first switch to it pops.
pub record Spawned (os : Os) (t code id : ℕ) : Type 0 where
  pub eip : (os.kernel.tasks t).eip ≡ code
  pub number : (os.kernel.tasks t).id ≡ id
  pub stack : (os.kernel.tasks t).esp + 24 ≡ (os.kernel.tasks t).stack_base + 4096
  pub frame : FirstFrame os.words (os.kernel.tasks t).esp code

enlist_field {ℓ} :
    {X : Type ℓ} (field : Task → X) (os : Os) (t : ℕ) (u : Task) (heap : KernelHeap) (words : Words)
    → ((n : ℕ) (v : Task) → field (record v { next = n }) ≡ field v)
    → ((n : ℕ) (v : Task) → field (record v { prev = n }) ≡ field v)
    → ((n : ℕ) (v : Task) → field (record v { ready_next = n }) ≡ field v)
    → ((v : Task) → field (record v { state = ready }) ≡ field v)
    → field ((enlist t (before os t u heap words)).kernel.tasks t) ≡ field u
unfolding enlist
enlist_field field os t u heap words nexts prevs links states =
    insert_task_field field t os.last_inserted (make_ready t (kernel_with os t u)).tasks nexts prevs
      t
    ∙ (make_ready_field field t (kernel_with os t u) states links t
        ∙ ap field (update_self t (λ v. u) os.kernel.tasks))

abbrev stack_words : (code top : ℕ) → Os → (base : ℕ) → List ℕ → ℕ × Words
stack_words code top os base frames = first_frame code (
  top,
  (vmm_unmap_page base
      (record { page_directory = os.page_directory; words = os.words; frames = frames })).words,
)

abbrev at_stack :
    (code id t : ℕ) → KernelHeap → Os → (base : ℕ) → List ℕ → (stack_base top : ℕ) → Os
at_stack code id t heap os base frames stack_base top = enlist t (
    before os t
      (new_task code id os.page_directory stack_base (stack_words code top os base frames).0)
      (record heap { frames = frames }) (stack_words code top os base frames).1)

with_stack-at :
    (code id t : ℕ) (heap : KernelHeap) (os : Os) (base : ℕ) (frames : List ℕ)
    → base + 8192 < 2 ^ 32
    → with_stack code id 0 t heap os (base, frames)
      ≡ at_stack code id t heap os base frames (base + 4096) (base + 8168 + 24)
unfolding with_stack enter
with_stack-at code id t heap os base frames lt =
    let at = at_stack code id t heap os base frames in
    ap (λ i. at i ((i + 4096) % 2 ^ 32)) (omega arith) ∙ ap (at (base + 4096)) (omega arith)

at_stack-Spawned :
    (code id t : ℕ) (heap : KernelHeap) (os : Os) (base : ℕ) (frames : List ℕ)
    → base + 8192 < 2 ^ 32
    → Spawned (at_stack code id t heap os base frames (base + 4096) (base + 8168 + 24)) t code id
unfolding enlist first_frame
at_stack-Spawned code id t heap os base frames lt =
    let (sp, words) = first_frame-FirstFrame code (base + 8168) _ (omega arith) in
    let o = stack_words code (base + 8168 + 24) os base frames in
    let u = new_task code id os.page_directory (base + 4096) o.0 in
    let heap' = record heap { frames = frames } in
    let os' = at_stack code id t heap os base frames (base + 4096) (base + 8168 + 24) in
    let esp : (os'.kernel.tasks t).esp ≡ o.0 =
      enlist_field (λ v. v.esp) os t u heap' o.1 (λ n v. refl) (λ n v. refl) (λ n v. refl)
        (λ v. refl) in
    let bottom : (os'.kernel.tasks t).stack_base ≡ base + 4096 =
      enlist_field (λ v. v.stack_base) os t u heap' o.1 (λ n v. refl) (λ n v. refl) (λ n v. refl)
        (λ v. refl) in
    record {
      eip =
          enlist_field (λ v. v.eip) os t u heap' o.1 (λ n v. refl) (λ n v. refl) (λ n v. refl)
            (λ v. refl);
      number =
          enlist_field (λ v. v.id) os t u heap' o.1 (λ n v. refl) (λ n v. refl) (λ n v. refl)
            (λ v. refl);
      stack = omega (arith, esp, sp, bottom);
      frame = subst (λ i. FirstFrame o.1 i code) (sym (esp ∙ sp)) words;
    }

-- What a call of `create_task` with type 0 leaves, when it returns the task.
pub record Created (os : Os) (r l : List ℕ) (code id t : ℕ) (os' : Os) : Type 0 where
  pub cells : List Cell
  pub inv : OsInv os' cells (r ++ t ∷ []) (l ++ t ∷ [])
  pub spawned : Spawned os' t code id

run-Created :
    (code id : ℕ) (os : Os) (cells : List Cell) (r l : List ℕ) (o : Outcome) (p : Placed cells o)
    (base : ℕ) (m' : List ℕ)
    → OsInv os cells r l
    → AllocatesRun p.heap.frames 2 base m'
    → base ≢ no_frame
    → Created os r l code id p.task (with_stack code id 0 p.task p.heap os (base, m'))
run-Created code id os cells r l o p _ _ h (no_run _) ne = absurd (ne refl)
run-Created code id os cells r l o p _ m' h (lowest_run s fits run first bitmap used) ne =
    let base = s * 4096 in
    let allocated = lowest_run s fits run first bitmap used in
    let low : base + 8192 < 2 ^ 32 = omega (arith, fits) in
    let heap' = record p.heap { frames = m' } in
    let made : Created os r l code id p.task
        (at_stack code id p.task p.heap os base m' (base + 4096) (base + 8168 + 24)) =
      record {
        cells = p.cells';
        inv =
            enlisted-OsInv os cells p.cells' r l p.task _ heap' _ h
              (frames-HeapInv p.heap p.cells' base m' p.inv allocated) p.stay p.placed p.fresh;
        spawned = at_stack-Spawned code id p.task p.heap os base m' low;
      } in
    subst (Created os r l code id p.task) (sym (with_stack-at code id p.task p.heap os base m' low))
      made

create_task-block :
    (fuel code id : ℕ) (os : Os) (t : ℕ) (heap : KernelHeap)
    → kmalloc fuel task_size os.heap ≡ returns t heap
    → create_task fuel code id 0 os
      ≡ some (t, with_stack code id 0 t heap os (pmm_alloc_contiguous 2 heap.frames))
unfolding create_task with_block
create_task-block fuel code id os t heap e = ap (with_block code id 0 os) e

-- The frames of the stack that `create_task` asks for, behind the block of the task.
abbrev pub stack_frames : Outcome → ℕ
stack_frames (returns t heap) = (pmm_alloc_contiguous 2 heap.frames).0
stack_frames Outcome.halts = no_frame
stack_frames Outcome.unfinished = no_frame

-- `create_task` with type 0, when the heap, the ready queue and the ring keep their invariants, every
-- task lies in a block of the heap that is in use, a frame is free for the heap and two frames in a
-- row are free after that for the stack: it returns a task in a block that held no other, which is now
-- the last of the ready queue and of the ring; the invariants are kept; and the task begins at the
-- code with the id given, with the words that the first switch to it pops on its stack.
pub create_task-Created :
    (fuel code id : ℕ) (os : Os) (cells : List Cell) (r l : List ℕ)
    → length cells + 2 ≤ fuel
    → OsInv os cells r l
    → (pmm_alloc_frame os.heap.frames).0 ≢ no_frame
    → stack_frames (kmalloc fuel task_size os.heap) ≢ no_frame
    → (t : ℕ) × ((os' : Os) × ((create_task fuel code id 0 os ≡ some (t, os'))
          × Created os r l code id t os'))
create_task-Created fuel code id os cells r l enough h frame stack =
    let p = Serves-Placed h.heap (
      kmalloc-Serves fuel task_size os.heap cells (omega arith) (omega arith) enough h.heap
        frame) in
    let o = pmm_alloc_contiguous 2 p.heap.frames in
    (
      p.task,
      (
        with_stack code id 0 p.task p.heap os o,
        (
          create_task-block fuel code id os p.task p.heap p.returned,
          run-Created code id os cells r l _ p o.0 o.1 h
              (pmm_alloc_contiguous-AllocatesRun p.heap.frames 2 p.inv.bitmap (omega arith))
              (λ e. stack (ap stack_frames p.returned ∙ e)),
        ),
      ),
    )
