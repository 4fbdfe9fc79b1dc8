-- ===== src/Pelikan/Descriptors/Tests.antt =====
-- The descriptor tables of pelikanOS/src/gdt.c at a concrete state.
use systems_programming_proj.Prelude.{ℕ, ◌≡◌, ◌≢◌, List, replicate, get_or, arith}
use systems_programming_proj.Pelikan.Descriptors.{GdtEntry, gdt_set_entry}
use systems_programming_proj.Pelikan.Descriptors.Decode.{
  base_of, limit_of, flags_of, gdt_set_entry-decoded,
}

abbrev blank : GdtEntry
blank = record {
  limit = 0;
  base_low = 0;
  base_middle = 0;
  access = 0;
  granularity = 0;
  base_high = 0;
}

abbrev gdt : List GdtEntry
gdt = replicate 3 blank

-- The code segment of `gdt_init`, with another base.
abbrev changed : List GdtEntry
changed = gdt_set_entry 1 0x12345678 0xFFFFF 0x9A 0x0C gdt

gdt_set_entry-decoded_example :
    ((base_of (get_or changed 1 blank) ≡ 0x12345678)
      × ((limit_of (get_or changed 1 blank) ≡ 0xFFFFF)
          × (((get_or changed 1 blank).access ≡ 0x9A)
              × (flags_of (get_or changed 1 blank) ≡ 0x0C))))
    × ((j : ℕ) → 1 ≢ j → get_or changed j blank ≡ get_or gdt j blank)
gdt_set_entry-decoded_example =
    gdt_set_entry-decoded 1 0x12345678 0xFFFFF 0x9A 0x0C gdt blank (omega arith) (omega arith)
      (omega arith) (omega arith)
