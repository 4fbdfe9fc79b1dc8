-- ===== src/Pelikan.antt =====
-- pelikanOS: one module for each part of the kernel.
pub mod Kheap
pub mod Pmm
pub mod Keyboard
pub mod Vga
pub mod Itoa
pub mod Cstring
pub mod Tasks
pub mod Scheduler
pub mod Vmm
pub mod Ring
pub mod Create
pub mod Shell
pub mod Descriptors
pub mod Interrupts
pub mod Hex
pub mod Reap
pub mod Boot
mod Tests
