-- ===== src/Pelikan/Descriptors/Decode.antt =====
-- What the processor reads in the entries of pelikanOS/src/gdt.c and pelikanOS/src/idt.c.
use systems_programming_proj.Prelude.{
  ℕ, ◌+◌, ◌*◌, ◌/◌, ◌%◌, ◌^◌, ◌<◌, true, List, length, get_or, set, get_or-set_self, get_or-set_ne,
  ◌==◌, ==_iff, ◌≡◌, refl, ap, ◌∙◌, ◌≢◌, arith,
}
use Prim.Native.Nat.{bit_or}
use systems_programming_proj.Pelikan.Pmm.Bits.{every, every-holds}
use systems_programming_proj.Pelikan.Descriptors.{GdtEntry, gdt_entry, gdt_set_entry}

-- The base, the limit and the flags as the processor puts them together.
unfoldable pub base_of : GdtEntry → ℕ
base_of e = e.base_low + (e.base_middle * 2 ^ 16 + e.base_high * 2 ^ 24)

unfoldable pub limit_of : GdtEntry → ℕ
limit_of e = e.limit + e.granularity % 16 * 2 ^ 16

unfoldable pub flags_of : GdtEntry → ℕ
flags_of e = e.granularity / 16

-- Two halves of a byte.
halves : every 16 (λ a. every 16 (λ b. bit_or (a * 16) b == a * 16 + b)) ≡ true
unfolding every
halves = refl

halves_sum : (a b : ℕ) → a < 16 → b < 16 → bit_or (a * 16) b ≡ a * 16 + b
halves_sum a b ha hb = (==_iff _ _).0 (
    every-holds 16 (λ b. bit_or (a * 16) b == a * 16 + b)
      (every-holds 16 (λ a. every 16 (λ b. bit_or (a * 16) b == a * 16 + b)) halves a ha) b hb)

-- `gdt_set_entry` in the table: the processor reads back the base of 32 bits, the limit of 20 bits, the
-- access byte and the flags of 4 bits that were given, and the other entries are as they were.
pub gdt_set_entry-decoded :
    (i base limit access flags : ℕ) (gdt : List GdtEntry) (d : GdtEntry)
    → i < length gdt
    → base < 2 ^ 32
    → limit < 2 ^ 20
    → flags < 16
    → let e = get_or (gdt_set_entry i base limit access flags gdt) i d in
      ((base_of e ≡ base) × ((limit_of e ≡ limit) × ((e.access ≡ access) × (flags_of e ≡ flags))))
      × ((j : ℕ)
          → i ≢ j
          → get_or (gdt_set_entry i base limit access flags gdt) j d ≡ get_or gdt j d)
unfolding gdt_set_entry gdt_entry base_of limit_of flags_of
gdt_set_entry-decoded i base limit access flags gdt d hi hb hl hf =
    let new = gdt_entry base limit access flags in
    let e : get_or (set gdt i new) i d ≡ new = get_or-set_self gdt i new d hi in
    let g : new.granularity ≡ flags % 16 * 16 + limit / 2 ^ 16 % 16 =
      halves_sum (flags % 16) (limit / 2 ^ 16 % 16) (omega arith) (omega arith) in
    let base_ok : base_of new ≡ base = omega (arith, hb) in
    let limit_ok : limit_of new ≡ limit = omega (arith, g, hl) in
    let flags_ok : flags_of new ≡ flags = omega (arith, g, hf) in
    (
      (
        ap base_of e ∙ base_ok,
        (ap limit_of e ∙ limit_ok, (ap (λ u. u.access) e, ap flags_of e ∙ flags_ok)),
      ),
      λ j ne. get_or-set_ne gdt i j new d ne,
    )
