-- ===== src/Pelikan/Kheap/Cells.antt =====
-- The heap of pelikanOS/src/heap.c as a list of cells, and what allocation and release may do to it.
use systems_programming_proj.Prelude.{
  ℕ, ◌+◌, ◌-◌, ◌<◌, ◌≤◌, Bool, true, false, List, [], ◌∷◌, ◌++◌, ◌≡◌, ◌⊎◌, inl, inr, arith,
}
use systems_programming_proj.Pelikan.Kheap.{header_size}

-- A block: its header begins at the address and its payload behind the header.
pub record Cell : Type 0 where
  pub addr : ℕ
  pub size : ℕ
  pub used : Bool

-- The address behind the block.
abbrev pub end : Cell → ℕ
end c = c.addr + (header_size + c.size)

abbrev pub cell : ℕ → ℕ → Bool → Cell
cell a s u = record { addr = a; size = s; used = u }

-- No byte of one is a byte of the other.
abbrev pub Clear : Cell → Cell → Type 0
Clear c d = (end c ≤ d.addr) ⊎ (end d ≤ c.addr)

abbrev pub ClearOf : Cell → List Cell → Type 0
ClearOf c [] = Unit
ClearOf c (d ∷ ds) = Clear c d × ClearOf c ds

-- No two blocks overlap.
abbrev pub Apart : List Cell → Type 0
Apart [] = Unit
Apart (c ∷ cs) = ClearOf c cs × Apart cs

-- What becomes of a free block that is large enough: all of it is given, or, where a header and a
-- byte are left over, the front part.
pub data Carves (size : ℕ) (c : Cell) : List Cell → Type 0 where
  whole : c.size ≤ size + header_size → Carves size c (cell c.addr c.size true ∷ [])
  front :
      size + header_size < c.size
      → Carves size c (
          cell c.addr size true
          ∷ cell (c.addr + (header_size + size)) ((c.size - size) - header_size) false
          ∷ [])

-- The first block of the list that is free and large enough serves the request.
pub data FirstFit (size : ℕ) : List Cell → ℕ → List Cell → Type 0 where
  here :
      {c : Cell} {cs piece : List Cell}
      → c.used ≡ false
      → size ≤ c.size
      → Carves size c piece
      → FirstFit size (c ∷ cs) (c.addr + header_size) (piece ++ cs)
  later :
      {c : Cell} {cs cs' : List Cell} {ptr : ℕ}
      → (c.used ≡ true) ⊎ (c.size < size)
      → FirstFit size cs ptr cs'
      → FirstFit size (c ∷ cs) ptr (c ∷ cs')

-- No block of the list serves it.
abbrev pub NoFit : ℕ → List Cell → Type 0
NoFit size [] = Unit
NoFit size (c ∷ cs) = ((c.used ≡ true) ⊎ (c.size < size)) × NoFit size cs

-- A block inside another is clear of what that is clear of.
pub ClearOf-inside :
    (c d : Cell) (l : List Cell) → c.addr ≤ d.addr → end d ≤ end c → ClearOf c l → ClearOf d l
ClearOf-inside c d [] lo hi h = tt
ClearOf-inside c d (e ∷ l) lo hi h = (
  (elim (h.0) [ inl a ↦ inl (omega arith) | inr b ↦ inr (omega arith) ]),
  ClearOf-inside c d l lo hi h.1,
)

carved-ClearOf :
    (size : ℕ) (c d : Cell) (piece l : List Cell)
    → size ≤ c.size
    → Carves size c piece
    → Clear d c
    → ClearOf d l
    → ClearOf d (piece ++ l)
carved-ClearOf size c d _ l fits (whole _) h rest = (h, rest)
carved-ClearOf size c d _ l fits (front room) h rest = (
  (elim h [ inl a ↦ inl (omega arith) | inr b ↦ inr (omega arith) ]),
  ((elim h [ inl a ↦ inl (omega arith) | inr b ↦ inr (omega arith) ]), rest),
)

carved-Apart :
    (size : ℕ) (c : Cell) (piece l : List Cell)
    → size ≤ c.size
    → Carves size c piece
    → Apart (c ∷ l)
    → Apart (piece ++ l)
carved-Apart size c _ l fits (whole _) h =
    (ClearOf-inside c (cell c.addr c.size true) l (omega arith) (omega arith) h.0, h.1)
carved-Apart size c _ l fits (front room) h =
    let given = cell c.addr size true in
    let left = cell (c.addr + (header_size + size)) ((c.size - size) - header_size) false in
    (
      (inl (omega arith), ClearOf-inside c given l (omega arith) (omega arith) h.0),
      (ClearOf-inside c left l (omega arith) (omega arith) h.0, h.1),
    )

FirstFit-ClearOf :
    {size ptr : ℕ} {l l' : List Cell} (d : Cell)
    → FirstFit size l ptr l'
    → ClearOf d l
    → ClearOf d l'
FirstFit-ClearOf d (here {c = c} {cs = cs} {piece = piece} _ fits carves) h =
    carved-ClearOf _ c d piece cs fits carves h.0 h.1
FirstFit-ClearOf d (later _ rest) h = (h.0, FirstFit-ClearOf d rest h.1)

-- Serving a request keeps the blocks apart.
pub FirstFit-Apart : {size ptr : ℕ} {l l' : List Cell} → FirstFit size l ptr l' → Apart l → Apart l'
FirstFit-Apart (here {c = c} {cs = cs} {piece = piece} _ fits carves) h =
    carved-Apart _ c piece cs fits carves h
FirstFit-Apart (later {c = c} _ rest) h = (FirstFit-ClearOf c rest h.0, FirstFit-Apart rest h.1)
