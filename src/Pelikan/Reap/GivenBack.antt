-- ===== src/Pelikan/Reap/GivenBack.antt =====
-- What a task leaves behind when the reaper is done with it.
use mathlib.Core.Path.{subst, sym}
use systems_programming_proj.Prelude.{
  ℕ, ◌+◌, ◌-◌, ◌/◌, ◌%◌, ◌^◌, ◌<◌, ◌≤◌, true, some, List, ◌∷◌, ◌++◌, ◌==◌, ◌&&◌, not, ltb, lt→ltb,
  ◌≡◌, ◌≢◌, refl, ap, ◌∙◌, inl, inr, Bool-cases, arith,
}
use systems_programming_proj.Pelikan.Tasks.{Store, update}
use systems_programming_proj.Pelikan.Tasks.Chain.{Absent, update_field}
use systems_programming_proj.Pelikan.Ring.{
  remove_task_from_circular_list, unlink, detach, set_next, set_prev,
}
use systems_programming_proj.Pelikan.Ring.Paths.{IsRing}
use systems_programming_proj.Pelikan.Ring.Insert.{Rings}
use systems_programming_proj.Pelikan.Ring.Remove.{without, remove_task_from_circular_list-Rings}
use systems_programming_proj.Pelikan.Pmm.{pmm_free_frame, unmark, is_used, bitmap_size, max_frames}
use systems_programming_proj.Pelikan.Pmm.Bits.{IsBitmap, unmark-IsBitmap, is_used-unmark}
use systems_programming_proj.Pelikan.Vmm.{
  Paging, set_entry, present_rw, translate, is_present, dir_entry,
}
use systems_programming_proj.Pelikan.Vmm.Tables.{IsPaging}
use systems_programming_proj.Pelikan.Vmm.Map.{vmm_map_page_present, set_page-Remapped}
use systems_programming_proj.Pelikan.Kheap.{KernelHeap, kfree, header_size}
use systems_programming_proj.Pelikan.Kheap.Cells.{Cell}
use systems_programming_proj.Pelikan.Kheap.Scan.{last_of}
use systems_programming_proj.Pelikan.Kheap.Alloc.{HeapInv}
use systems_programming_proj.Pelikan.Kheap.Kfree.{Released, kfree-Released}
use systems_programming_proj.Pelikan.Create.{Os}
use systems_programming_proj.Pelikan.Reap.{leave_ring, free_both, give_back, clean_up}

-- The page tables of the system, and the heap without the two frames of a stack.
abbrev pub paging_of : Os → Paging
paging_of os = record {
  page_directory = os.page_directory;
  words = os.words;
  frames = os.heap.frames;
}

abbrev pub without_stack : (stack_base : ℕ) → KernelHeap → KernelHeap
without_stack stack_base h = record h {
  frames = unmark (stack_base / 4096) (unmark ((stack_base - 4096) / 4096) h.frames);
}

unlink_base : (t : ℕ) (s : Store) (q : ℕ) → (unlink t s q).stack_base ≡ (s q).stack_base
unfolding unlink
unlink_base t s q =
    let s₁ = update (s t).prev (set_next (s t).next) s in
    update_field (λ u. u.stack_base) (s₁ t).next (set_prev (s₁ t).prev) s₁ (λ u. refl) q
    ∙ update_field (λ u. u.stack_base) (s t).prev (set_next (s t).next) s (λ u. refl) q

detach_base : (t : ℕ) (s : Store) (q : ℕ) → (detach t s q).stack_base ≡ (s q).stack_base
detach_base t s q =
    update_field (λ u. u.stack_base) t (set_prev 0) (update t (set_next 0) s) (λ u. refl) q
    ∙ update_field (λ u. u.stack_base) t (set_next 0) s (λ u. refl) q

-- Leaving the ring does not change where a stack is.
removed_base :
    (t last : ℕ) (s : Store) (q : ℕ)
    → ((remove_task_from_circular_list t last s).1 q).stack_base ≡ (s q).stack_base
unfolding remove_task_from_circular_list
removed_base t last s q = elim (Bool-cases ((s t).next == t)) [
  | inl e ↦ rw e (detach_base t s q)
  | inr e ↦ rw e (detach_base t (unlink t s) q ∙ unlink_base t s q)
]

free_frame :
    (frame : ℕ) (m : List ℕ)
    → frame < 2 ^ 27
    → pmm_free_frame frame m ≡ some (unmark (frame / 4096) m)
unfolding pmm_free_frame
free_frame frame m lt =
    let fits : ltb (frame / 4096 / 8) bitmap_size ≡ true =
      lt→ltb (frame / 4096 / 8) bitmap_size (omega (arith, lt)) in
    rw fits refl

free_both_frames :
    (guard stack_base : ℕ) (m : List ℕ)
    → guard < 2 ^ 27
    → stack_base < 2 ^ 27
    → free_both guard stack_base m ≡ some (unmark (stack_base / 4096) (unmark (guard / 4096) m))
unfolding free_both
free_both_frames guard stack_base m lt lt' =
    rw (free_frame guard m lt, free_both) (free_frame stack_base (unmark (guard / 4096) m) lt')

-- What the corpse's stack and block become.
pub record GivenBack (stack_base : ℕ) (l : List ℕ) (pre : List Cell) (c : Cell) (post : List Cell)
    (os os' : Os) : Type 0 where
  pub ring : Rings os'.kernel.tasks os'.last_inserted l
  pub guarded :
      translate (stack_base - 4096) os'.page_directory os'.words ≡ some (stack_base - 4096)
  pub others :
      (u : ℕ)
      → u < 2 ^ 32
      → u / 4096 ≢ (stack_base - 4096) / 4096
      → translate u os'.page_directory os'.words ≡ translate u os.page_directory os.words
  pub paging : IsPaging (paging_of os')
  pub block : Released pre c post (without_stack stack_base os.heap) os'.heap
  pub frames :
      (g : ℕ)
      → g < max_frames
      → is_used g os'.heap.frames ≡ (
          not (stack_base / 4096 == g)
          && (not ((stack_base - 4096) / 4096 == g) && is_used g os.heap.frames))

-- The page tables with the guard page in them.
abbrev guarded : (stack_base : ℕ) → Os → Paging
guarded stack_base os =
    set_entry (stack_base - 4096) (present_rw (stack_base - 4096)) (paging_of os)

abbrev cleaned : (corpse stack_base : ℕ) → Os → Os
cleaned corpse stack_base os = record (leave_ring corpse os) {
  page_directory = os.page_directory;
  words = (guarded stack_base os).words;
  heap = kfree corpse (without_stack stack_base os.heap);
}

clean_up-cleaned :
    (corpse base : ℕ) (os : Os)
    → (os.kernel.tasks corpse).stack_base ≡ base
    → 4096 ≤ base
    → base < 2 ^ 27
    → is_present (dir_entry os.page_directory (base - 4096) os.words) ≡ true
    → clean_up corpse os ≡ some (cleaned corpse base os)
unfolding clean_up leave_ring give_back set_entry
clean_up-cleaned corpse base os e ge lt table =
    let stack : ((remove_task_from_circular_list corpse os.last_inserted os.kernel.tasks).1
          corpse).stack_base
        ≡ base =
      removed_base corpse os.last_inserted os.kernel.tasks corpse ∙ e in
    let guard : (base + (2 ^ 32 - 4096)) % 2 ^ 32 ≡ base - 4096 = omega (arith, ge, lt) in
    let mapped = vmm_map_page_present (base - 4096) (base - 4096) (paging_of os) table in
    let freed = free_both_frames (base - 4096) base os.heap.frames (omega (arith, lt)) lt in
    rw (stack, guard, mapped, freed) refl

-- `clean_up` of a corpse that is in the ring and whose structure is a block of the heap. Conditions:
-- the stack is the frame at `base`, below 2^27 and aligned, with the guard page below it; the tasks of
-- the ring are not null; the bitmap has its 4096 bytes; the page tables have a table for the guard
-- page; page tables and heap are well formed even with the two frames free (neither frame is the
-- directory, a table or part of a block); and the `prev` link of the corpse's block names the block
-- before it, or is null for the first. Then the call succeeds, the ring keeps the other tasks in their
-- order, the guard page is translated to itself and every other page as before, the page tables are
-- well formed, exactly the two frames become free, and the block becomes free and is joined with its
-- neighbours, each if it is free and adjacent.
pub clean_up-GivenBack :
    (base : ℕ) (before after : List ℕ) (pre : List Cell) (c : Cell) (post : List Cell) (os : Os)
    → (os.kernel.tasks (c.addr + header_size)).stack_base ≡ base
    → base % 4096 ≡ 0
    → 4096 ≤ base
    → base < 2 ^ 27
    → IsRing os.kernel.tasks os.last_inserted (before ++ (c.addr + header_size) ∷ after)
    → Absent 0 (before ++ (c.addr + header_size) ∷ after)
    → IsBitmap os.heap.frames
    → IsPaging (record (paging_of os) { frames = (without_stack base os.heap).frames })
    → is_present (dir_entry os.page_directory (base - 4096) os.words) ≡ true
    → HeapInv (without_stack base os.heap) (pre ++ c ∷ post)
    → (os.heap.blocks c.addr).prev ≡ last_of 0 pre
    → (os' : Os) × ((clean_up (c.addr + header_size) os ≡ some os')
        × GivenBack base (without before after) pre c post os os')
unfolding leave_ring set_entry
clean_up-GivenBack base before after pre c post os e aligned ge lt ring nonnull bits paging table
      heap prev =
    let corpse = c.addr + header_size in
    let guard = base - 4096 in
    let rest = record (paging_of os) { frames = (without_stack base os.heap).frames } in
    let mapped =
      set_page-Remapped guard guard rest (omega (arith, lt)) (omega (arith, aligned)) paging
        table in
    let block = kfree-Released (without_stack base os.heap) pre c post heap prev in
    let lower = unmark (guard / 4096) os.heap.frames in
    let g< : guard / 4096 < max_frames = omega (arith, lt) in
    let b< : base / 4096 < max_frames = omega (arith, lt) in
    let offset : guard + guard % 4096 ≡ guard = omega (arith, aligned) in
    (
      cleaned corpse base os,
      (
        clean_up-cleaned corpse base os e ge lt table,
        record {
          ring =
              remove_task_from_circular_list-Rings os.kernel.tasks corpse os.last_inserted before
                after ring nonnull;
          guarded = mapped.here ∙ ap some offset;
          others = mapped.others;
          paging =
              subst (λ f. IsPaging (record (guarded base os) { frames = f })) (sym block.frames)
                mapped.paging;
          block = block;
          frames = λ g lt'.
              ap (is_used g) block.frames
              ∙ is_used-unmark lower (unmark-IsBitmap os.heap.frames bits (guard / 4096) g<)
                  (base / 4096) b< g
              ∙ ap (λ b. not (base / 4096 == g) && b)
                  (is_used-unmark os.heap.frames bits (guard / 4096) g< g);
        },
      ),
    )
