-- ===== src/Pelikan/Create/Created.antt =====
-- `create_task` of pelikanOS/src/scheduler.c over the parts that it calls.
use mathlib.Core.Path.{subst}
use systems_programming_proj.Prelude.{ℕ, true, List, [], ◌∷◌, ◌++◌, ◌≡◌, refl, sym, ap, ◌∙◌, ◌≢◌}
use systems_programming_proj.Pelikan.Tasks.{Task, update}
use systems_programming_proj.Pelikan.Tasks.Chain.{update_other}
use systems_programming_proj.Pelikan.Scheduler.{Kernel, make_ready}
use systems_programming_proj.Pelikan.Scheduler.Waiting.{Ready, make_ready-Ready}
use systems_programming_proj.Pelikan.Ring.{insert_task}
use systems_programming_proj.Pelikan.Ring.Insert.{Rings, insert_task-Rings}
use systems_programming_proj.Pelikan.Pmm.{is_used}
use systems_programming_proj.Pelikan.Pmm.Contiguous.{AllocatesRun, no_run, lowest_run}
use systems_programming_proj.Pelikan.Pmm.Fresh.{or_right}
use systems_programming_proj.Pelikan.Kheap.{KernelHeap}
use systems_programming_proj.Pelikan.Kheap.Cells.{Cell}
use systems_programming_proj.Pelikan.Kheap.Grow.{InUse-more}
use systems_programming_proj.Pelikan.Kheap.Alloc.{HeapInv}
use systems_programming_proj.Pelikan.Vmm.{Words}
use systems_programming_proj.Pelikan.Create.{Os, enlist}
use systems_programming_proj.Pelikan.Create.Housed.{
  InCell, Housed, Housed-stay, Housed-Absent, Housed-append, InCell-nonnull,
}
use systems_programming_proj.Pelikan.Create.Enlisted.{
  Rings-outside, filled-Ready, inserted-Ready, make_ready_field,
}

-- The heap keeps its invariant, the ready queue and the ring hold the tasks of two lists, and each of
-- these tasks lies in a block of the heap that is in use.
pub record OsInv (os : Os) (cells : List Cell) (r l : List ℕ) : Type 0 where
  pub heap : HeapInv os.heap cells
  pub waiting : Ready os.kernel r
  pub all : Rings os.kernel.tasks os.last_inserted l
  pub ready_housed : Housed cells r
  pub all_housed : Housed cells l

abbrev pub kernel_with : Os → ℕ → Task → Kernel
kernel_with os t u = record os.kernel { tasks = update t (λ v. u) os.kernel.tasks }

-- The state that `enlist` is called in.
abbrev pub before : Os → (t : ℕ) → Task → KernelHeap → Words → Os
before os t u heap words = record os {
  kernel = make_ready t (kernel_with os t u);
  heap = heap;
  words = words;
}

pub enlisted-OsInv :
    (os : Os) (cells cells' : List Cell) (r l : List ℕ) (t : ℕ) (u : Task) (heap : KernelHeap)
    (words : Words)
    → OsInv os cells r l
    → HeapInv heap cells'
    → ((x : ℕ) → InCell x cells → InCell x cells')
    → InCell t cells'
    → ((x : ℕ) → InCell x cells → t ≢ x)
    → OsInv (enlist t (before os t u heap words)) cells' (r ++ t ∷ []) (l ++ t ∷ [])
unfolding enlist
enlisted-OsInv os cells cells' r l t u heap words h inv stay placed fresh =
    let nonnull = InCell-nonnull t cells' placed in
    let out_r = Housed-Absent cells t r fresh h.ready_housed in
    let out_l = Housed-Absent cells t l fresh h.all_housed in
    let k₁ = kernel_with os t u in
    let k₂ = make_ready t k₁ in
    let waiting =
      make_ready-Ready k₁ r t nonnull out_r (filled-Ready os.kernel r t (λ v. u) out_r h.waiting) in
    let same : (y : ℕ) → t ≢ y → k₁.tasks y ≡ os.kernel.tasks y =
      λ y ne. update_other t y (λ v. u) os.kernel.tasks ne in
    let all =
      Rings-outside os.kernel.tasks k₂.tasks t os.last_inserted l
        (λ y ne.
          make_ready_field (λ v. v.next) t k₁ (λ v. refl) (λ n v. refl) y
          ∙ ap (λ v. v.next) (same y ne))
        (λ y ne.
          make_ready_field (λ v. v.prev) t k₁ (λ v. refl) (λ n v. refl) y
          ∙ ap (λ v. v.prev) (same y ne))
        out_l h.all in
    let (last, longer) = insert_task-Rings t os.last_inserted k₂.tasks l nonnull out_l all in
    record {
      heap = inv;
      waiting = inserted-Ready k₂ (r ++ t ∷ []) t os.last_inserted waiting;
      all =
          subst (λ i. Rings (insert_task t os.last_inserted k₂.tasks).1 i (l ++ t ∷ [])) (sym last)
            longer;
      ready_housed =
          Housed-append cells' r t (Housed-stay cells cells' r stay h.ready_housed) placed;
      all_housed = Housed-append cells' l t (Housed-stay cells cells' l stay h.all_housed) placed;
    }

-- More frames in use.
pub frames-HeapInv :
    (heap : KernelHeap) (cells : List Cell) (base : ℕ) (m' : List ℕ)
    → HeapInv heap cells
    → AllocatesRun heap.frames 2 base m'
    → HeapInv (record heap { frames = m' }) cells
frames-HeapInv heap cells base _ h (no_run _) = h
frames-HeapInv heap cells base m' h (lowest_run s _ _ _ bitmap used) =
    let more : (g : ℕ) → is_used g heap.frames ≡ true → is_used g m' ≡ true =
      λ g e. used g ∙ or_right _ _ e in
    record {
      chain = h.chain;
      apart = h.apart;
      low = h.low;
      backed = InUse-more heap.frames m' cells more h.backed;
      bitmap = bitmap;
      first = more 0 h.first;
    }
