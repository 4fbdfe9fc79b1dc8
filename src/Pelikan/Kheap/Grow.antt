-- ===== src/Pelikan/Kheap/Grow.antt =====
-- A frame joins the heap of pelikanOS/src/heap.c: `request_space`.
use systems_programming_proj.Prelude.{
  ℕ, ◌+◌, ◌*◌, ◌<◌, ◌≤◌, true, false, List, [], ◌∷◌, ◌++◌, ◌≡◌, refl, sym, ap, ◌∙◌, ◌≢◌, inl, inr,
  leb, Bool-cases, arith,
}
use systems_programming_proj.Pelikan.Pmm.{is_used}
use systems_programming_proj.Pelikan.Kheap.{frame_payload, Memory, write, with_next}
use systems_programming_proj.Pelikan.Kheap.Cells.{
  Cell, cell, end, Clear, ClearOf, Apart, whole, front, FirstFit, here, later,
}
use systems_programming_proj.Pelikan.Kheap.Memory.{
  Shows, Lists, Outside, Below, write_self, write_other, Lists-from, Shows-same, ClearOf-Outside,
}
use systems_programming_proj.Pelikan.Kheap.Scan.{last_of}

-- The block that fills a frame.
abbrev pub frame_cell : ℕ → Cell
frame_cell f = cell (f * 4096) frame_payload false

-- Each frame that a block has a byte in is used in the bitmap.
abbrev pub InUse : List ℕ → List Cell → Type 0
InUse m [] = Unit
InUse m (c ∷ cs) =
    ((g : ℕ) → c.addr < g * 4096 + 4096 → g * 4096 < end c → is_used g m ≡ true) × InUse m cs

-- A frame that is free is clear of the blocks.
pub InUse-ClearOf :
    (m : List ℕ) (f : ℕ) (cs : List Cell)
    → is_used f m ≡ false
    → InUse m cs
    → ClearOf (frame_cell f) cs
InUse-ClearOf m f [] free h = tt
InUse-ClearOf m f (c ∷ cs) free h = (
  elim (Bool-cases (leb (end c) (f * 4096))) [
    | inl e ↦ inr (ground (arith, e))
    | inr e ↦ elim (Bool-cases (leb (f * 4096 + 4096) c.addr)) [
      | inl d ↦ inl (ground (arith, d))
      | inr d ↦
          let used : is_used f m ≡ true = h.0 f (ground (arith, d)) (ground (arith, e)) in
          let clash : true ≡ false = sym used ∙ free in ground (arith, clash)
    ]
  ],
  InUse-ClearOf m f cs free h.1,
)

-- More frames are used.
pub InUse-more :
    (m m' : List ℕ) (cs : List Cell)
    → ((g : ℕ) → is_used g m ≡ true → is_used g m' ≡ true)
    → InUse m cs
    → InUse m' cs
InUse-more m m' [] more h = tt
InUse-more m m' (c ∷ cs) more h = (λ g lo hi. more g (h.0 g lo hi), InUse-more m m' cs more h.1)

pub InUse-FirstFit :
    {size ptr : ℕ} {cs cs' : List Cell} (m : List ℕ)
    → FirstFit size cs ptr cs'
    → InUse m cs
    → InUse m cs'
InUse-FirstFit m (here _ fits (whole _)) h = h
InUse-FirstFit m (here _ fits (front room)) h =
    (λ g lo hi. h.0 g lo (omega arith), (λ g lo hi. h.0 g (omega arith) (omega arith), h.1))
InUse-FirstFit m (later _ rest) h = (h.0, InUse-FirstFit m rest h.1)

pub Below-FirstFit :
    {size ptr : ℕ} {cs cs' : List Cell} (n : ℕ)
    → FirstFit size cs ptr cs'
    → Below n cs
    → Below n cs'
Below-FirstFit n (here _ fits (whole _)) h = h
Below-FirstFit n (here _ fits (front room)) h = (omega (arith, h.0), (omega (arith, h.0), h.1))
Below-FirstFit n (later _ rest) h = (h.0, Below-FirstFit n rest h.1)

-- A cell behind the others.
pub InUse-append :
    (m : List ℕ) (cs : List Cell) (c : Cell)
    → InUse m cs
    → InUse m (c ∷ [])
    → InUse m (cs ++ c ∷ [])
InUse-append m [] c h one = one
InUse-append m (d ∷ cs) c h one = (h.0, InUse-append m cs c h.1 one)

pub Below-append :
    (n : ℕ) (cs : List Cell) (c : Cell) → Below n cs → end c ≤ n → Below n (cs ++ c ∷ [])
Below-append n [] c h le = (le, tt)
Below-append n (d ∷ cs) c h le = (h.0, Below-append n cs c h.1 le)

ClearOf-append :
    (d : Cell) (cs : List Cell) (c : Cell) → ClearOf d cs → Clear d c → ClearOf d (cs ++ c ∷ [])
ClearOf-append d [] c h one = (one, tt)
ClearOf-append d (e ∷ cs) c h one = (h.0, ClearOf-append d cs c h.1 one)

pub Apart-append : (cs : List Cell) (c : Cell) → Apart cs → ClearOf c cs → Apart (cs ++ c ∷ [])
Apart-append [] c h clear = (tt, tt)
Apart-append (d ∷ cs) c h clear = (
  ClearOf-append d cs c h.0 (elim (clear.0) [ inl a ↦ inr a | inr b ↦ inl b ]),
  Apart-append cs c h.1 clear.1,
)

last_differs : (q : ℕ) (d : Cell) (ds : List Cell) → Outside q (d ∷ ds) → last_of d.addr ds ≢ q
last_differs q d [] out e = elim (out.0) [
  | inl a ↦ omega (arith, e, a)
  | inr b ↦ omega (arith, e, b)
]
last_differs q d (c ∷ ds) out e = last_differs q c ds out.1 e

-- The last block is linked to a new one.
pub Lists-append :
    (m : Memory) (c : Cell) (cs : List Cell) (new : Cell)
    → new.addr ≢ 0
    → Shows (m new.addr) new
    → (m new.addr).next ≡ 0
    → Outside new.addr (c ∷ cs)
    → Apart (c ∷ cs)
    → Lists m c.addr (c ∷ cs)
    → Lists (write (last_of c.addr cs) (with_next new.addr) m) c.addr (c ∷ cs ++ new ∷ [])
Lists-append m c [] new nonnull shows null out apart h =
    let f = with_next new.addr in
    let self = write_self c.addr f m in
    let ne : c.addr ≢ new.addr =
      λ e. elim (out.0) [ inl a ↦ omega (arith, e, a) | inr b ↦ omega (arith, e, b) ] in
    let other = write_other c.addr new.addr f m ne in
    (
      refl,
      (
        h.1.0,
        (
          record {
            size = ap (λ u. u.size) self ∙ h.1.1.0.size;
            free = ap (λ u. u.free) self ∙ h.1.1.0.free;
            magic = ap (λ u. u.magic) self ∙ h.1.1.0.magic;
          },
          (
            ap (λ u. u.next) self,
            (nonnull, (Shows-same _ _ new other shows, ap (λ u. u.next) other ∙ null)),
          ),
        ),
      ),
    )
Lists-append m c (d ∷ ds) new nonnull shows null out apart h =
    let f = with_next new.addr in
    let t = last_of d.addr ds in
    let ne : t ≢ c.addr =
      last_differs c.addr d ds
        (ClearOf-Outside c c.addr (d ∷ ds) (omega arith) (omega arith) apart.0) in
    let same = write_other t c.addr f m ne in
    let next : (m c.addr).next ≡ d.addr = h.1.1.1.0 in
    let rest = Lists-append m d ds new nonnull shows null out.1 apart.1 (refl, h.1.1.1.1) in
    (
      refl,
      (
        h.1.0,
        (
          Shows-same _ _ c same h.1.1.0,
          Lists-from _ _ _ (d ∷ ds ++ new ∷ []) (ap (λ u. u.next) same ∙ next) rest,
        ),
      ),
    )
