-- ===== src/Pelikan/Vmm.antt =====
-- pelikanOS/src/vmm.c: the page directory and the page tables. They are read and written at their
-- physical addresses, as the code does. The processor's part is `translate`; loading CR3, setting
-- the paging bit and `invlpg` are the processor's.
pub mod Tables
pub mod Entry
pub mod Grow
pub mod Map
pub mod Fill
pub mod Init
mod Tests
use systems_programming_proj.Prelude.{
  ℕ, zero, suc, ◌+◌, ◌-◌, ◌*◌, ◌/◌, ◌%◌, ◌^◌, Bool, true, false, ◌&&◌, not, Option, none, some,
  List, ltb, leb, ◌==◌, if◌then◌else◌,
}
use systems_programming_proj.Pelikan.Pmm.{pmm_alloc_frame}

-- The words of the memory, by the address of their first byte.
abbrev pub Words : Type 0
Words = ℕ → ℕ

unfoldable pub put_word : (addr word : ℕ) → Words → Words
put_word addr word w q = if addr == q then word else w q

-- `memset(page, 0, 4096)`
unfoldable pub clear_page : ℕ → Words → Words
clear_page page w q = if leb page q && ltb q (page + 4096) then 0 else w q

pub record Paging : Type 0 where
  pub page_directory : ℕ
  pub words : Words
  pub frames : List ℕ

-- `entry & 0x01`, `entry & 0xFFFFF000` and `addr | PAGE_PRESENT | PAGE_RW`
abbrev pub is_present : ℕ → Bool
is_present entry = not (entry % 2 == 0)

abbrev pub page_of : ℕ → ℕ
page_of entry = entry - entry % 4096

abbrev pub present_rw : ℕ → ℕ
present_rw addr = addr - addr % 4 + 3

abbrev pub dir_index : ℕ → ℕ
dir_index virt_addr = virt_addr / 2 ^ 22

abbrev pub table_index : ℕ → ℕ
table_index virt_addr = virt_addr / 4096 % 1024

-- The address of an entry of a directory or of a table.
abbrev pub entry_at : (page index : ℕ) → ℕ
entry_at page index = page + 4 * index

abbrev pub dir_entry : (page_directory virt_addr : ℕ) → Words → ℕ
dir_entry page_directory virt_addr w = w (entry_at page_directory (dir_index virt_addr))

-- A new table for an entry, with the frame that `pmm_alloc_frame` gave.
unfoldable pub new_table : (virt_addr : ℕ) → Paging → ℕ × List ℕ → Paging
new_table virt_addr st (frame, frames) = record st {
  words =
      put_word (entry_at st.page_directory (dir_index virt_addr)) (present_rw frame)
        (clear_page frame st.words);
  frames = frames;
}

unfoldable pub ensure_table : (virt_addr : ℕ) → Paging → Paging
ensure_table virt_addr st =
    if not (is_present (dir_entry st.page_directory virt_addr st.words))
    then new_table virt_addr st (pmm_alloc_frame st.frames)
    else st

unfoldable pub set_entry : (virt_addr entry : ℕ) → Paging → Paging
set_entry virt_addr entry st =
    let page_table = page_of (dir_entry st.page_directory virt_addr st.words) in
    record st { words = put_word (entry_at page_table (table_index virt_addr)) entry st.words }

unfoldable pub vmm_map_page : (virt_addr phys_addr : ℕ) → Paging → Paging
vmm_map_page virt_addr phys_addr st =
    set_entry virt_addr (present_rw phys_addr) (ensure_table virt_addr st)

-- The directory entry is not tested.
unfoldable pub vmm_unmap_page : (virt_addr : ℕ) → Paging → Paging
vmm_unmap_page virt_addr st = set_entry virt_addr 0 st

unfoldable pub fill_table : (remaining i page_table : ℕ) → Words → Words
fill_table zero i page_table w = w
fill_table (suc remaining) i page_table w =
    fill_table remaining (suc i) page_table
      (put_word (entry_at page_table i) (present_rw (i * 4096)) w)

abbrev pub max_entries : ℕ
max_entries = 1024

unfoldable pub init_table : Paging → ℕ × List ℕ → Paging
init_table st (page_table, frames) = record st {
  words =
      put_word (entry_at st.page_directory 0) (present_rw page_table)
        (fill_table max_entries 0 page_table st.words);
  frames = frames;
}

unfoldable pub init_directory : Words → ℕ × List ℕ → Paging
init_directory w (page_directory, frames) = record {
  page_directory = page_directory;
  words = clear_page page_directory w;
  frames = frames;
}

unfoldable pub vmm_init : Words → List ℕ → Paging
vmm_init w frames =
    let st = init_directory w (pmm_alloc_frame frames) in init_table st (pmm_alloc_frame st.frames)

unfoldable pub vmm_get_kernel_directory : Paging → ℕ
vmm_get_kernel_directory st = st.page_directory

-- The translation that the processor makes with a directory: the entry of the directory leads to a
-- table, the entry of the table to a page, and an entry that is not present is a page fault.
unfoldable pub translate : ℕ → (page_directory : ℕ) → Words → Option ℕ
translate virt_addr page_directory w =
    let directory = dir_entry page_directory virt_addr w in
    let entry = w (entry_at (page_of directory) (table_index virt_addr)) in
    if is_present directory && is_present entry
    then some (page_of entry + virt_addr % 4096)
    else none
