-- ===== src/Pelikan/Pmm/Init.antt =====
-- `pmm_init` of pelikanOS/src/pmm.c: which frames are free after the memory map is read.
use systems_programming_proj.Prelude.{
  ℕ, ◌+◌, ◌-◌, ◌*◌, ◌/◌, ◌^◌, ◌≤◌, Bool, true, false, ◌&&◌, ◌||◌, not, Option, some, List, [], ◌∷◌,
  ◌≡◌, refl, ap, ◌∙◌, inl, inr, ltb, leb, ◌==◌, replicate, Bool-cases, arith,
}
use mathlib.Core.Bool.{and-eq-true_iff}
use systems_programming_proj.Pelikan.Pmm.{
  MmapEntry, max_frames, bitmap_size, unmark_range, start_frame, end_frame, in_bitmap, free_entry,
  free_entries, kernel_first, kernel_last, pmm_init,
}
use systems_programming_proj.Pelikan.Pmm.Bits.{full-IsBitmap, is_used-full}
use systems_programming_proj.Pelikan.Pmm.Spans.{in_span, Shows, mark_span, unmark_span}

-- The bytes of a frame, and whether a byte is one of so many from an address on.
abbrev pub first_byte : (g : ℕ) → ℕ
first_byte g = g * 4096

abbrev pub last_byte : (g : ℕ) → ℕ
last_byte g = g * 4096 + 4095

abbrev pub has_byte : (address size byte : ℕ) → Bool
has_byte address size byte = leb address byte && ltb byte (address + size)

-- Some available entry of the memory map has the byte.
unfoldable pub available : List MmapEntry → (byte : ℕ) → Bool
available [] byte = false
available (entry ∷ entries) byte =
    (entry.type == 1 && has_byte entry.addr entry.len byte) || available entries byte

-- The frame and the bytes from one address up to another have a byte in common.
abbrev pub meets : (address end g : ℕ) → Bool
meets address end g = leb address (last_byte g) && ltb (first_byte g) end

-- Every available entry ends in the 128 MB that the bitmap covers.
unfoldable pub covered : List MmapEntry → Bool
covered [] = true
covered (entry ∷ entries) =
    (not (entry.type == 1) || leb (entry.addr + entry.len) (2 ^ 27)) && covered entries

-- The frames that the code counts for an entry, and for the kernel.
entry_frames :
    (entry : MmapEntry) (g : ℕ)
    → entry.addr + entry.len ≤ 2 ^ 27
    → in_span (start_frame entry) (end_frame entry) g ≡ has_byte entry.addr entry.len (last_byte g)
entry_frames entry g le =
    let first : start_frame entry ≡ entry.addr / 4096 = omega (arith, le) in
    let last : end_frame entry ≡ (entry.addr + entry.len) / 4096 = omega (arith, le) in
    rw (first, last) ground arith

kernel_frames :
    (kernel_start kernel_end g : ℕ)
    → kernel_end ≤ 2 ^ 27
    → in_span (kernel_first kernel_start) (kernel_last kernel_end) g
      ≡ meets kernel_start kernel_end g
kernel_frames kernel_start kernel_end g le =
    let last : kernel_last kernel_end ≡ (kernel_end + 4095) / 4096 = omega (arith, le) in
    rw last ground arith

megabyte : (g : ℕ) → in_span 0 256 g ≡ ltb (first_byte g) (2 ^ 20)
megabyte g = ground arith

same_bits :
    {m : List ℕ} {used used' : ℕ → Bool}
    → Shows m used
    → ((g : ℕ) → used g ≡ used' g)
    → Shows m used'
same_bits h e = record { bitmap = h.bitmap; shows = λ g lt. h.shows g lt ∙ e g }

freed_twice : (a b c : Bool) → (not b && (not a && c)) ≡ (not (a || b) && c)
freed_twice true true c = refl
freed_twice true false c = refl
freed_twice false b c = refl

kept : (a b c : Bool) → (b || (c || (not a && true))) ≡ (b || (c || not a))
kept true b c = refl
kept false b c = refl

inside_bitmap : (first last : ℕ) (m : List ℕ) → last ≤ max_frames → in_bitmap first last m ≡ some m
inside_bitmap first last m le = ground arith

abbrev Freed : List ℕ → (ℕ → Bool) → Option (List ℕ) → Type 0
Freed m used o = (m' : List ℕ) × ((o ≡ some m') × Shows m' used)

free_entry-Freed :
    (entry : MmapEntry) (m : List ℕ) (used : ℕ → Bool)
    → (not (entry.type == 1) || leb (entry.addr + entry.len) (2 ^ 27)) ≡ true
    → Shows m used
    → Freed m
        (λ g. not (entry.type == 1 && has_byte entry.addr entry.len (last_byte g)) && used g)
        (free_entry entry m)
unfolding free_entry
free_entry-Freed entry m used cov h = elim (Bool-cases (entry.type == 1)) [
  | inl e ↦
      let short : entry.addr + entry.len ≤ 2 ^ 27 = ground (arith, e, cov) in
      let le : end_frame entry ≤ max_frames = omega (arith, short) in
      (
        unmark_range (end_frame entry - start_frame entry) (start_frame entry) m,
        (
          simp (e) (inside_bitmap (start_frame entry) (end_frame entry) _ le),
          same_bits (unmark_span (start_frame entry) (end_frame entry) m used le h)
              (λ g. simp (e) (ap (λ b. not b && used g) (entry_frames entry g short))),
        ),
      )
  | inr e ↦ (m, (simp (e) refl, same_bits h (λ g. simp (e) refl)))
]

free_entries-Freed :
    (entries : List MmapEntry) (m : List ℕ) (used : ℕ → Bool)
    → covered entries ≡ true
    → Shows m used
    → Freed m (λ g. not (available entries (last_byte g)) && used g) (free_entries entries m)
unfolding free_entries covered available
free_entries-Freed [] m used cov h = (m, (refl, h))
free_entries-Freed (entry ∷ entries) m used cov h =
    let (here, rest) =
      (and-eq-true_iff (not (entry.type == 1) || leb (entry.addr + entry.len) (2 ^ 27))
          (covered entries)).0
        cov in
    let (m₁, (e₁, h₁)) = free_entry-Freed entry m used here h in
    let (m₂, (e₂, h₂)) = free_entries-Freed entries m₁ _ rest h₁ in
    (
      m₂,
      (
        rw (e₁, free_entries) e₂,
        same_bits h₂ (λ g.
            freed_twice (entry.type == 1 && has_byte entry.addr entry.len (last_byte g))
              (available entries (last_byte g)) (used g)),
      ),
    )

-- When every available entry and the kernel end in the first 128 MB, `pmm_init` finishes, and then a
-- frame is in use exactly if it begins in the first megabyte, or has a byte in common with the
-- kernel, or no available entry of the memory map has its last byte. (So a frame at the end of an entry
-- that is partly outside it stays in use, but one at its beginning becomes free.)
pub pmm_init-Shows :
    (kernel_start kernel_end : ℕ) (entries : List MmapEntry)
    → covered entries ≡ true
    → kernel_end ≤ 2 ^ 27
    → (m : List ℕ) × ((pmm_init kernel_start kernel_end entries ≡ some m)
        × Shows m (λ g.
          meets kernel_start kernel_end g
          || (ltb (first_byte g) (2 ^ 20) || not (available entries (last_byte g)))))
unfolding pmm_init
pmm_init-Shows kernel_start kernel_end entries cov le =
    let start : Shows (replicate bitmap_size 0xff) (λ g. true) = record {
      bitmap = full-IsBitmap;
      shows = is_used-full;
    } in
    let last : kernel_last kernel_end ≤ max_frames = omega (arith, le) in
    let (m₁, (e₁, h₁)) = free_entries-Freed entries _ (λ g. true) cov start in
    let h₂ = mark_span 0 256 m₁ _ (omega arith) h₁ in
    let h₃ = mark_span (kernel_first kernel_start) (kernel_last kernel_end) _ _ last h₂ in
    (
      _,
      (
        rw (e₁, pmm_init) (inside_bitmap _ (kernel_last kernel_end) _ last),
        same_bits h₃ (λ g.
            kept (available entries (last_byte g)) _ _
            ∙ rw (kernel_frames kernel_start kernel_end g le, megabyte g) refl),
      ),
    )
