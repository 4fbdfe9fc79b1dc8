-- ===== src/Pelikan/Kheap/Scan.antt =====
-- The search of `kmalloc` in pelikanOS/src/heap.c through the list, up to its end.
use systems_programming_proj.Prelude.{
  ℕ, zero, suc, ◌+◌, ◌-◌, ◌<◌, ◌≤◌, ◌^◌, true, false, none, some, List, [], ◌∷◌, ◌++◌, ◌≡◌, refl,
  sym, ap, ◌∙◌, ◌≢◌, ◌⊎◌, inl, inr, ◌==◌, ltb, Bool-cases, length, arith,
}
use mathlib.Core.Path.{subst}
use systems_programming_proj.Pelikan.Kheap.{
  header_size, Memory, offset, KernelHeap, request_space, try_block, returns, search,
}
use systems_programming_proj.Pelikan.Kheap.Cells.{
  Cell, end, ClearOf, Apart, FirstFit, here, later, NoFit,
}
use systems_programming_proj.Pelikan.Kheap.Memory.{
  Lists, Outside, Below, Lists-from, Shows-same, ClearOf-Outside, offset_below,
}
use systems_programming_proj.Pelikan.Kheap.Fit.{Carved, try_block-none, try_block-Carved}

search_on :
    (fuel size p last : ℕ) (h : KernelHeap)
    → p ≢ 0
    → try_block size p h.blocks ≡ none
    → search (suc fuel) size p last h ≡ search fuel size (h.blocks p).next p h
unfolding search
search_on fuel size p last h ne e =
    let nonnull : (p == 0) ≡ false = ground (arith, ne) in rw (nonnull, e, search) refl

pub search_hit :
    (fuel size p last : ℕ) (h : KernelHeap) (m : Memory)
    → p ≢ 0
    → try_block size p h.blocks ≡ some m
    → search (suc fuel) size p last h ≡ returns (offset p header_size) (record h { blocks = m })
unfolding search
search_hit fuel size p last h m ne e =
    let nonnull : (p == 0) ≡ false = ground (arith, ne) in rw (nonnull, e, search) refl

-- The end of the list is reached, and a frame is added.
pub search_grow :
    (fuel size last b : ℕ) (h h' : KernelHeap)
    → request_space last h ≡ some (b, h')
    → search (suc fuel) size 0 last h ≡ search fuel size b last h'
unfolding search
search_grow fuel size last b h h' e = rw (e, search) refl

-- The address of the last cell.
abbrev pub last_of : ℕ → List Cell → ℕ
last_of last [] = last
last_of last (c ∷ cs) = last_of c.addr cs

-- The search found a block: the pointer, the list and the memory after it.
pub record Found (size p last : ℕ) (h : KernelHeap) (cs : List Cell) : Type 0 where
  pub ptr : ℕ
  pub cs' : List Cell
  pub memory : Memory
  pub runs :
      (fuel : ℕ)
      → length cs ≤ fuel
      → search fuel size p last h ≡ returns ptr (record h { blocks = memory })
  pub fits : FirstFit size cs ptr cs'
  pub lists : Lists memory p cs'
  pub keeps : (q : ℕ) → Outside q cs → memory q ≡ h.blocks q

-- The search came to the end of the list.
pub record Passed (size p last : ℕ) (h : KernelHeap) (cs : List Cell) : Type 0 where
  pub no_fit : NoFit size cs
  pub runs :
      (fuel : ℕ)
      → length cs ≤ fuel
      → search fuel size p last h ≡ search (fuel - length cs) size 0 (last_of last cs) h

Found-here :
    (size last : ℕ) (h : KernelHeap) (c : Cell) (cs : List Cell) (m' : Memory)
    → c.used ≡ false
    → size ≤ c.size
    → end c ≤ 2 ^ 27
    → c.addr ≢ 0
    → try_block size c.addr h.blocks ≡ some m'
    → Carved size h.blocks c cs m'
    → Found size c.addr last h (c ∷ cs)
Found-here size last h c cs m' unused fits low nonnull e carved = record {
  ptr = c.addr + header_size;
  cs' = carved.piece ++ cs;
  memory = m';
  runs = hit;
  fits = here unused fits carved.carves;
  lists = carved.lists;
  keeps = λ q out. carved.keeps q out.0;
}
  where
    hit :
        (fuel : ℕ)
        → suc (length cs) ≤ fuel
        → search fuel size c.addr last h ≡ returns (c.addr + header_size) (record h { blocks = m' })
    hit zero le = absurd (omega arith)
    hit (suc fuel) le =
        search_hit fuel size c.addr last h m' nonnull e
        ∙ ap (λ i. returns i (record h { blocks = m' }))
            (offset_below c.addr header_size (omega arith))

Passed-end : (size p last : ℕ) (h : KernelHeap) → p ≡ 0 → Passed size p last h []
Passed-end size p last h e = record {
  no_fit = tt;
  runs = λ fuel le.
      ap (λ i. search fuel size i last h) e ∙ ap (λ i. search i size 0 last h) (omega arith);
}

-- A block that does not serve the request is passed over.
step_on :
    (fuel size last : ℕ) (h : KernelHeap) (c : Cell) (cs : List Cell)
    → (c.used ≡ true) ⊎ (c.size < size)
    → Lists h.blocks c.addr (c ∷ cs)
    → search (suc fuel) size c.addr last h ≡ search fuel size (h.blocks c.addr).next c.addr h
step_on fuel size last h c cs skip chain =
    search_on fuel size c.addr last h chain.1.0 (try_block-none size h.blocks c chain.1.1.0 skip)

Found-later :
    (size last : ℕ) (h : KernelHeap) (c : Cell) (cs : List Cell)
    → (c.used ≡ true) ⊎ (c.size < size)
    → ClearOf c cs
    → Lists h.blocks c.addr (c ∷ cs)
    → Found size (h.blocks c.addr).next c.addr h cs
    → Found size c.addr last h (c ∷ cs)
Found-later size last h c cs skip clear chain found = record {
  ptr = found.ptr;
  cs' = c ∷ found.cs';
  memory = found.memory;
  runs = runs;
  fits = later skip found.fits;
  lists = (
    refl,
    (
      chain.1.0,
      (
        Shows-same _ _ c same chain.1.1.0,
        Lists-from found.memory _ _ found.cs' (ap (λ u. u.next) same) found.lists,
      ),
    ),
  );
  keeps = λ q out. found.keeps q out.1;
}
  where
    same : found.memory c.addr ≡ h.blocks c.addr
    same = found.keeps c.addr (ClearOf-Outside c c.addr cs (omega arith) (omega arith) clear)

    runs :
        (fuel : ℕ)
        → suc (length cs) ≤ fuel
        → search fuel size c.addr last h ≡ returns found.ptr (record h { blocks = found.memory })
    runs zero le = absurd (omega arith)
    runs (suc fuel) le = step_on fuel size last h c cs skip chain ∙ found.runs fuel (omega arith)

Passed-on :
    (size last : ℕ) (h : KernelHeap) (c : Cell) (cs : List Cell)
    → (c.used ≡ true) ⊎ (c.size < size)
    → Lists h.blocks c.addr (c ∷ cs)
    → Passed size (h.blocks c.addr).next c.addr h cs
    → Passed size c.addr last h (c ∷ cs)
Passed-on size last h c cs skip chain passed = record {
  no_fit = (skip, passed.no_fit);
  runs = runs;
}
  where
    runs :
        (fuel : ℕ)
        → suc (length cs) ≤ fuel
        → search fuel size c.addr last h
          ≡ search (fuel - suc (length cs)) size 0 (last_of c.addr cs) h
    runs zero le = absurd (omega arith)
    runs (suc fuel) le =
        step_on fuel size last h c cs skip chain
        ∙ (passed.runs fuel (omega arith)
            ∙ ap (λ i. search i size 0 (last_of c.addr cs) h) (omega arith))

pub serves :
    (size : ℕ) (c : Cell)
    → ((c.used ≡ true) ⊎ (c.size < size)) ⊎ ((c.used ≡ false) × (size ≤ c.size))
serves size c = elim (Bool-cases c.used) [
  | inl u ↦ inl (inl u)
  | inr u ↦ elim (Bool-cases (ltb c.size size)) [
    | inl e ↦ inl (inr (ground (arith, e)))
    | inr e ↦ inr (u, ground (arith, e))
  ]
]

scan_at :
    (size last : ℕ) (h : KernelHeap) (c : Cell) (cs : List Cell)
    → Lists h.blocks c.addr (c ∷ cs)
    → Apart (c ∷ cs)
    → Below (2 ^ 27) (c ∷ cs)
    → Found size (h.blocks c.addr).next c.addr h cs ⊎ Passed size (h.blocks c.addr).next c.addr h cs
    → Found size c.addr last h (c ∷ cs) ⊎ Passed size c.addr last h (c ∷ cs)
scan_at size last h c cs chain apart low rest = elim (serves size c) [
  | inl skip ↦ elim rest [
    | inl found ↦ inl (Found-later size last h c cs skip apart.0 chain found)
    | inr passed ↦ inr (Passed-on size last h c cs skip chain passed)
  ]
  | inr (unused, fits) ↦
      let (m', (e, carved)) =
        try_block-Carved size h.blocks c cs unused fits low.0 apart.0 apart.1 chain in
      inl (Found-here size last h c cs m' unused fits low.0 chain.1.0 e carved)
]

-- The search through a list finds the first block that serves the request, or comes to the end.
pub scan :
    (size p last : ℕ) (h : KernelHeap) (cs : List Cell)
    → Lists h.blocks p cs
    → Apart cs
    → Below (2 ^ 27) cs
    → Found size p last h cs ⊎ Passed size p last h cs
scan size p last h [] chain apart low = inr (Passed-end size p last h chain)
scan size p last h (c ∷ cs) chain apart low =
    let rest = scan size (h.blocks c.addr).next c.addr h cs chain.1.1.1 apart.1 low.1 in
    subst (λ i. Found size i last h (c ∷ cs) ⊎ Passed size i last h (c ∷ cs)) (sym chain.0)
      (scan_at size last h c cs (refl, chain.1) apart low rest)
