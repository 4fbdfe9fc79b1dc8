-- ===== src/Pelikan/Descriptors.antt =====
-- pelikanOS/src/gdt.c and pelikanOS/src/idt.c: the tables of segments and of interrupts. The assembly
-- loads them.
pub mod Decode
mod Tests
use systems_programming_proj.Prelude.{
  ℕ, zero, suc, ◌+◌, ◌*◌, ◌/◌, ◌%◌, ◌^◌, List, get_or, set, replicate,
}
use Prim.Native.Nat.{bit_or}

pub record GdtEntry : Type 0 where
  pub limit : ℕ
  pub base_low : ℕ
  pub base_middle : ℕ
  pub access : ℕ
  pub granularity : ℕ
  pub base_high : ℕ

-- A mask of the lowest bits is the remainder by a power of two, a shift a quotient or a product.
unfoldable pub gdt_entry : (base limit access flags : ℕ) → GdtEntry
gdt_entry base limit access flags = record {
  limit = limit % 2 ^ 16;
  base_low = base % 2 ^ 16;
  base_middle = base / 2 ^ 16 % 2 ^ 8;
  access = access;
  granularity = bit_or (flags % 16 * 16) (limit / 2 ^ 16 % 16);
  base_high = base / 2 ^ 24 % 2 ^ 8;
}

unfoldable pub gdt_set_entry : (index base limit access flags : ℕ) → List GdtEntry → List GdtEntry
gdt_set_entry index base limit access flags gdt = set gdt index (gdt_entry base limit access flags)

pub record TablePointer : Type 0 where
  pub limit : ℕ
  pub base : ℕ

-- The table and its pointer; `gdt` is at an address that the linker gives.
unfoldable pub gdt_init : (gdt_address : ℕ) → List GdtEntry → List GdtEntry × TablePointer
gdt_init gdt_address gdt = (
  gdt_set_entry 2 0 0xFFFFF 0x92 0x0C
      (gdt_set_entry 1 0 0xFFFFF 0x9A 0x0C (gdt_set_entry 0 0 0 0 0 gdt)),
  record { limit = 23; base = gdt_address },
)

pub record IdtEntry : Type 0 where
  pub handler_low : ℕ
  pub segment_selector : ℕ
  pub zero_byte : ℕ
  pub type : ℕ
  pub handler_high : ℕ

unfoldable pub idt_entry : (handler segment_selector zero_byte type : ℕ) → IdtEntry
idt_entry handler segment_selector zero_byte type = record {
  handler_low = handler % 2 ^ 16;
  segment_selector = segment_selector;
  zero_byte = zero_byte;
  type = type;
  handler_high = handler / 2 ^ 16 % 2 ^ 16;
}

unfoldable pub idt_set_entry :
    (index handler segment_selector zero_byte type : ℕ) → List IdtEntry → List IdtEntry
idt_set_entry index handler segment_selector zero_byte type idt =
    set idt index (idt_entry handler segment_selector zero_byte type)

-- `isr_table` holds the addresses of the stubs.
unfoldable pub idt_from : (remaining i : ℕ) → (isr_table : List ℕ) → List IdtEntry → List IdtEntry
idt_from zero i isr_table idt = idt
idt_from (suc remaining) i isr_table idt =
    idt_from remaining (suc i) isr_table (idt_set_entry i (get_or isr_table i 0) 0x08 0 0x8E idt)

unfoldable pub idt_init :
    (idt_address : ℕ) → (isr_table : List ℕ) → List IdtEntry → List IdtEntry × TablePointer
idt_init idt_address isr_table idt =
    (idt_from 48 0 isr_table idt, record { limit = 2047; base = idt_address })
