-- ===== src/Pelikan/Kheap/Kfree.antt =====
-- Each release by `kfree` of pelikanOS/src/heap.c of a block whose `prev` link is right.
use mathlib.Core.Path.{subst}
use systems_programming_proj.Prelude.{
  ℕ, ◌+◌, ◌-◌, ◌%◌, ◌<◌, ◌^◌, false, List, ◌∷◌, ◌++◌, ◌≡◌, refl, sym, ap, ◌∙◌, ◌==◌, arith,
}
use systems_programming_proj.Pelikan.Kheap.{
  header_size, write, KernelHeap, released, coalesce_next, coalesce_prev, kfree,
}
use systems_programming_proj.Pelikan.Kheap.Cells.{Cell}
use systems_programming_proj.Pelikan.Kheap.Memory.{write_self}
use systems_programming_proj.Pelikan.Kheap.Scan.{last_of}
use systems_programming_proj.Pelikan.Kheap.Alloc.{HeapInv}
use systems_programming_proj.Pelikan.Kheap.NextStep.{Below-drop, coalesce_next-Halfway}
use systems_programming_proj.Pelikan.Kheap.Free.{
  Sound, freed, freed-Sound, NextJoin, PrevJoin, release-Lists,
}
use systems_programming_proj.Pelikan.Kheap.JoinBack.{coalesce_prev-Joined}

-- What a release does to the list: the block becomes free and takes in the next one, and then the
-- block before takes it in, each where that one is free and adjacent.
pub record Released (pre : List Cell) (c : Cell) (post : List Cell) (h h' : KernelHeap)
    : Type 0 where
  pub c₁ : Cell
  pub post₁ : List Cell
  pub front : List Cell
  pub next : NextJoin (freed c) post c₁ post₁
  pub prev : PrevJoin c₁ pre front
  pub inv : HeapInv h' (front ++ post₁)
  pub frames : h'.frames ≡ h.frames

kfree_block :
    (p : ℕ) (h : KernelHeap)
    → p < 2 ^ 27
    → kfree (p + header_size) h
      ≡ record h { blocks = coalesce_prev p (coalesce_next p (write p released h.blocks)) }
unfolding kfree
kfree_block p h lt =
    let nonnull : (p + header_size == 0) ≡ false = ground arith in
    let block : (p + header_size + (2 ^ 32 - header_size)) % 2 ^ 32 ≡ p = omega arith in
    rw (nonnull, block) refl

-- `kfree` of a block of the heap that is in use, when the heap keeps its invariant and the `prev` link
-- of the block names the block before it, or is null for the first: the block becomes free and is
-- joined with its neighbours in the list, each exactly if it is free and adjacent in memory; the
-- other blocks stay, the invariant is kept, and no frame is given back.
pub kfree-Released :
    (h : KernelHeap) (pre : List Cell) (c : Cell) (post : List Cell)
    → HeapInv h (pre ++ c ∷ post)
    → (h.blocks c.addr).prev ≡ last_of 0 pre
    → Released pre c post h (kfree (c.addr + header_size) h)
kfree-Released h pre c post inv prev =
    let p = c.addr in
    let sound : Sound h.frames (pre ++ c ∷ post) = record {
      apart = inv.apart;
      low = inv.low;
      backed = inv.backed;
    } in
    let low = Below-drop (2 ^ 27) pre (c ∷ post) inv.low in
    let m₁ = write p released h.blocks in
    let half =
      coalesce_next-Halfway h.head h.frames pre m₁ (freed c) refl post
        (release-Lists h.blocks h.head pre c post inv.apart inv.chain)
        (freed-Sound h.frames pre c post sound) in
    let m₂ = coalesce_next p m₁ in
    let link : (m₂ half.c₁.addr).prev ≡ last_of 0 pre =
      ap (λ i. (m₂ i).prev) half.same_addr
      ∙ (half.prev_link ∙ (ap (λ u. u.prev) (write_self p released h.blocks) ∙ prev)) in
    let whole =
      coalesce_prev-Joined h.head h.frames m₂ half.c₁ half.post₁ pre half.lists half.sound link in
    let m₃ = coalesce_prev half.c₁.addr m₂ in
    let run : kfree (p + header_size) h ≡ record h { blocks = m₃ } =
      kfree_block p h (omega (arith, low.0))
      ∙ ap (λ i. record h { blocks = coalesce_prev i m₂ }) (sym half.same_addr) in
    subst (Released pre c post h) (sym run) (record {
      c₁ = half.c₁;
      post₁ = half.post₁;
      front = whole.front;
      next = half.next;
      prev = whole.prev;
      inv = record {
        chain = whole.lists;
        apart = whole.sound.apart;
        low = whole.sound.low;
        backed = whole.sound.backed;
        bitmap = inv.bitmap;
        first = inv.first;
      };
      frames = refl;
    })
