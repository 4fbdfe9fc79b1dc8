-- ===== src/Pelikan/Create/Housed.antt =====
-- The blocks of the heap that hold the tasks, for `create_task` of pelikanOS/src/scheduler.c.
use systems_programming_proj.Prelude.{
  ℕ, ◌+◌, ◌≤◌, true, false, List, [], ◌∷◌, ◌++◌, ◌≡◌, refl, sym, ◌∙◌, ◌≢◌, ◌⊎◌, inl, inr, arith,
}
use systems_programming_proj.Pelikan.Tasks.Chain.{Absent}
use systems_programming_proj.Pelikan.Kheap.{header_size, KernelHeap, Outcome, returns}
use systems_programming_proj.Pelikan.Kheap.Cells.{Cell, whole, front, FirstFit, here, later}
use systems_programming_proj.Pelikan.Kheap.Grow.{frame_cell, InUse-ClearOf, Apart-append}
use systems_programming_proj.Pelikan.Kheap.Alloc.{HeapInv, Serves, from_list, from_frame}
use systems_programming_proj.Pelikan.Kheap.Exclusive.{Untaken, FirstFit-Untaken}
use systems_programming_proj.Pelikan.Create.{task_size}

-- The address is the payload of a block that is in use and has room for a task.
abbrev pub InCell : ℕ → List Cell → Type 0
InCell x [] = ⊥
InCell x (c ∷ cs) =
    ((c.used ≡ true) × ((x ≡ c.addr + header_size) × (task_size ≤ c.size))) ⊎ InCell x cs

abbrev pub Housed : List Cell → List ℕ → Type 0
Housed cells [] = Unit
Housed cells (x ∷ l) = InCell x cells × Housed cells l

InCell-prefix : (x : ℕ) (cs ds : List Cell) → InCell x cs → InCell x (cs ++ ds)
InCell-prefix x [] ds h = absurd h
InCell-prefix x (c ∷ cs) ds (inl a) = inl a
InCell-prefix x (c ∷ cs) ds (inr b) = inr (InCell-prefix x cs ds b)

-- A request leaves the tasks where they are.
InCell-FirstFit :
    {size ptr : ℕ} {cs cs' : List Cell} (x : ℕ)
    → FirstFit size cs ptr cs'
    → InCell x cs
    → InCell x cs'
InCell-FirstFit x (here unused _ _) (inl (used, _)) =
    let clash : true ≡ false = sym used ∙ unused in absurd (ground (arith, clash))
InCell-FirstFit x (here _ _ (whole _)) (inr b) = inr b
InCell-FirstFit x (here _ _ (front _)) (inr b) = inr (inr b)
InCell-FirstFit x (later _ rest) (inl a) = inl a
InCell-FirstFit x (later _ rest) (inr b) = inr (InCell-FirstFit x rest b)

-- The block that serves the request of a task houses it.
InCell-new : {ptr : ℕ} {cs cs' : List Cell} → FirstFit task_size cs ptr cs' → InCell ptr cs'
InCell-new (here _ fits (whole _)) = inl (refl, (refl, fits))
InCell-new (here _ fits (front _)) = inl (refl, (refl, omega arith))
InCell-new (later _ rest) = inr (InCell-new rest)

InCell-differs : (ptr x : ℕ) (cs : List Cell) → Untaken ptr task_size cs → InCell x cs → ptr ≢ x
InCell-differs ptr x [] h a e = absurd a
InCell-differs ptr x (c ∷ cs) h (inl (used, (at, room))) e = elim (h.0 used) [
  | inl a ↦ omega (arith, a, at, room, e)
  | inr b ↦ omega (arith, b, at, room, e)
]
InCell-differs ptr x (c ∷ cs) h (inr b) e = InCell-differs ptr x cs h.1 b e

Untaken-front :
    (ptr size : ℕ) (cs ds : List Cell) → Untaken ptr size (cs ++ ds) → Untaken ptr size cs
Untaken-front ptr size [] ds h = tt
Untaken-front ptr size (c ∷ cs) ds h = (h.0, Untaken-front ptr size cs ds h.1)

-- The block that `kmalloc` gave to a new task.
pub record Placed (cells : List Cell) (o : Outcome) : Type 0 where
  pub task : ℕ
  pub heap : KernelHeap
  pub cells' : List Cell
  pub returned : o ≡ returns task heap
  pub inv : HeapInv heap cells'
  pub stay : (x : ℕ) → InCell x cells → InCell x cells'
  pub placed : InCell task cells'
  pub fresh : (x : ℕ) → InCell x cells → task ≢ x

pub Serves-Placed :
    {h : KernelHeap} {cells : List Cell} {o : Outcome}
    → HeapInv h cells
    → Serves task_size h cells o
    → Placed cells o
Serves-Placed {cells = cells} inv (from_list {ptr = ptr} {h' = h'} {cells' = cells'} fit inv' _) =
    record {
      task = ptr;
      heap = h';
      cells' = cells';
      returned = refl;
      inv = inv';
      stay = λ x a. InCell-FirstFit x fit a;
      placed = InCell-new fit;
      fresh = λ x a. InCell-differs ptr x cells (FirstFit-Untaken fit inv.apart) a;
    }
Serves-Placed {h = h} {cells = cells} inv
      (from_frame {ptr = ptr} {h' = h'} {cells' = cells'} f _ free fit inv' _) =
    let apart =
      Apart-append cells (frame_cell f) inv.apart
        (InUse-ClearOf h.frames f cells free inv.backed) in
    record {
      task = ptr;
      heap = h';
      cells' = cells';
      returned = refl;
      inv = inv';
      stay = λ x a. InCell-FirstFit x fit (InCell-prefix x cells (frame_cell f ∷ []) a);
      placed = InCell-new fit;
      fresh = λ x a.
          InCell-differs ptr x cells
            (Untaken-front ptr task_size cells (frame_cell f ∷ []) (FirstFit-Untaken fit apart)) a;
    }

pub Housed-stay :
    (cells cells' : List Cell) (l : List ℕ)
    → ((x : ℕ) → InCell x cells → InCell x cells')
    → Housed cells l
    → Housed cells' l
Housed-stay cells cells' [] stay h = tt
Housed-stay cells cells' (x ∷ l) stay h = (stay x h.0, Housed-stay cells cells' l stay h.1)

pub Housed-Absent :
    (cells : List Cell) (t : ℕ) (l : List ℕ)
    → ((x : ℕ) → InCell x cells → t ≢ x)
    → Housed cells l
    → Absent t l
Housed-Absent cells t [] fresh h = tt
Housed-Absent cells t (x ∷ l) fresh h = (fresh x h.0, Housed-Absent cells t l fresh h.1)

pub Housed-append :
    (cells : List Cell) (l : List ℕ) (t : ℕ)
    → Housed cells l
    → InCell t cells
    → Housed cells (l ++ t ∷ [])
Housed-append cells [] t h one = (one, tt)
Housed-append cells (x ∷ l) t h one = (h.0, Housed-append cells l t h.1 one)

pub InCell-nonnull : (t : ℕ) (cells : List Cell) → InCell t cells → t ≢ 0
InCell-nonnull t [] a e = absurd a
InCell-nonnull t (c ∷ cs) (inl (_, (at, _))) e = omega (arith, at, e)
InCell-nonnull t (c ∷ cs) (inr b) e = InCell-nonnull t cs b e
