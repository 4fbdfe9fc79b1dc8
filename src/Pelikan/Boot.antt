-- ===== src/Pelikan/Boot.antt =====
-- `kmain` of pelikanOS/src/kernel.c, up to the loop of the scheduler that it ends in.
use systems_programming_proj.Prelude.{ℕ, ◌+◌, ◌-◌, ◌%◌, ◌^◌, Option, none, some, List}
use systems_programming_proj.Pelikan.Pmm.{MmapEntry, pmm_init}
use systems_programming_proj.Pelikan.Keyboard.{Rb, ringbuf_init}
use systems_programming_proj.Pelikan.Vmm.{vmm_unmap_page}
use systems_programming_proj.Pelikan.Descriptors.{
  GdtEntry, gdt_init, IdtEntry, idt_init, TablePointer,
}
use systems_programming_proj.Pelikan.Interrupts.{Writes, pic_remap, pit_init}
use systems_programming_proj.Pelikan.Create.{Os, spawn_reaper, create_task}

-- Addresses from the linker, the memory map from the boot loader, and the bound of `kmalloc`.
pub record Image : Type 0 where
  pub kernel_start : ℕ
  pub kernel_end : ℕ
  pub stack_bottom : ℕ
  pub gdt_address : ℕ
  pub idt_address : ℕ
  pub isr_table : List ℕ
  pub reaper_thread : ℕ
  pub shell_run : ℕ
  pub clock_thread : ℕ
  pub entries : List MmapEntry
  pub fuel : ℕ

pub record BootMachine : Type 0 where
  pub gdt : List GdtEntry
  pub gdt_ptr : TablePointer
  pub idt : List IdtEntry
  pub idt_ptr : TablePointer
  pub writes : Writes
  pub rb : Rb
  pub os : Os

unfoldable pub then_task : (fuel code id : ℕ) → Option (ℕ × Os) → Option (ℕ × Os)
then_task fuel code id none = none
then_task fuel code id (some (task, os)) = create_task fuel code id 0 os

-- The tasks that the kernel begins with.
unfoldable pub first_tasks : Image → Os → Option (ℕ × Os)
first_tasks image os =
    then_task image.fuel image.clock_thread 1
      (then_task image.fuel image.shell_run 0 (spawn_reaper image.fuel image.reaper_thread os))

-- The guard page below the boot stack.
unfoldable pub guard_stack : Image → List ℕ → Os → Os
guard_stack image frames os =
    let paging =
      vmm_unmap_page ((image.stack_bottom + (2 ^ 32 - 4096)) % 2 ^ 32)
        (record { page_directory = os.page_directory; words = os.words; frames = frames }) in
    record os { words = paging.words; heap = record os.heap { frames = frames } }

unfoldable pub boot_tables : Image → BootMachine → BootMachine
boot_tables image m =
    let (gdt, gdt_ptr) = gdt_init image.gdt_address m.gdt in
    let (idt, idt_ptr) = idt_init image.idt_address image.isr_table m.idt in
    record m {
      gdt = gdt;
      gdt_ptr = gdt_ptr;
      idt = idt;
      idt_ptr = idt_ptr;
      writes = pit_init 100 (pic_remap m.writes);
    }

unfoldable pub with_tasks : BootMachine → Option (ℕ × Os) → Option BootMachine
with_tasks m none = none
with_tasks m (some (task, os)) = some (record m { os = os })

unfoldable pub with_frames : Image → BootMachine → Option (List ℕ) → Option BootMachine
with_frames image m none = none
with_frames image m (some frames) =
    with_tasks (record m { rb = ringbuf_init m.rb })
      (first_tasks image (guard_stack image frames m.os))

unfoldable pub kmain : Image → BootMachine → Option BootMachine
kmain image m =
    with_frames image (boot_tables image m)
      (pmm_init image.kernel_start image.kernel_end image.entries)
