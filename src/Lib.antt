-- ===== src/Lib.antt =====
-- Verification of the systems programming projects: a compiler to bytecode with its virtual machine,
-- the core of the kernel pelikanOS,
-- and an allocator on sbrk.
--
-- Parts of the program, and the files that model them.
--
-- * bytecode-vm/vm.c, the virtual machine: Bytecode/OpCode (the opcodes and the `switch` labels) and
--   Bytecode/Vm (`VM` as a record with its arrays; vm_init, vm_push, vm_pop, vm_push_cs, vm_pop_cs,
--   and one round of vm_run as `step`). Bytecode/Machine is the contract: the same instructions
--   over lists of at most 256 entries. Bytecode/Refine relates the two.
-- * bytecode-vm/compiler.c, the lexer: Bytecode/Lexer (lexer, with the buffers for words and numbers
--   and the token array), with Lexer/Bounds on its end and the number of its tokens.
-- * bytecode-vm/compiler.c, the parser: Bytecode/Parser (parse_statement, parse_comparison,
--   parse_expression, parse_term, parse_factor and parser). Parser/Printer writes a tree as tokens;
--   Parser/Atoms, Expressions and Programs are about reading them back, Parser/Precedence about the
--   grouping of operators.
-- * bytecode-vm/compiler.c, the code generator: Bytecode/Ast (the trees of the parser),
--   Bytecode/Codegen (walk and generate_byte). Bytecode/Semantics gives the meaning of a tree,
--   Bytecode/Scope the condition on its variables and literals. Codegen/Table, Grow, Extension and Keeps are
--   about the variable table, Codegen/Layout and Backpatch about the bytes and the jump targets,
--   and Bytecode/Correct about running the code.
-- * bytecode-vm/compiler.c, print_tokens and main: Bytecode/Main.
-- * pelikanOS/src/pmm.c, the physical frames: Pelikan/Pmm (all functions, on the bytes of the
--   bitmap), with Pmm/Bits and Pmm/Ranges on single bits and on loops, Pmm/Alloc on single frames,
--   Pmm/Contiguous on runs of frames, and Pmm/Spans and Pmm/Init on the memory map.
-- * pelikanOS/src/heap.c, the heap of the kernel: Pelikan/Kheap (request_space, kmalloc and kfree on
--   headers by address), with Kheap/Cells on the list of blocks, Memory, Fit, Scan, Grow and Alloc on
--   the search, FromFrame, Serve, Exclusive and Exhausted on kmalloc, Splice, Join, Free, NextStep and JoinBack
--   on joining blocks and Kfree on kfree.
-- * pelikanOS/src/keyboard.c, the keys: Pelikan/Keyboard (the scancodes, the ring buffer and the handler), and
--   Keyboard/Ring, where the buffer is a queue.
-- * pelikanOS/src/vga.c, the console: Pelikan/Vga (makeSpace, mapToVGA, print, removeChar
--   and print_at), with Vga/Scroll on scrolling, Vga/Cursor on the cursor and Vga/Place on print_at;
--   Pelikan/Hex is print_hex.
-- * pelikanOS/src/vmm.c, the page tables: Pelikan/Vmm (all functions, on the words of the memory, and
--   the translation of the processor), with Vmm/Tables on the invariant, Entry, Grow and Map on mapping
--   and unmapping, and Fill and Init on the start.
-- * pelikanOS/src/scheduler.c, the ring of all tasks: Pelikan/Ring (insert_task,
--   remove_task_from_circular_list, scheduler_list_tasks), with Ring/Paths, Insert, Unlinked, Remove and Listing.
-- * pelikanOS/src/scheduler.c, new tasks: Pelikan/Create (create_task and spawn_reaper over the heap, the
--   frames, the page tables, the ready queue and the ring), with Create/Stack on the first stack,
--   Create/Housed on the blocks of tasks, and Create/Enlisted, Created and Spawned on the call.
-- * pelikanOS/src/scheduler.c, what the reaper gives back: Pelikan/Reap, with
--   Reap/GivenBack on its clean-up.
-- * pelikanOS/src/kernel.c, kmain: Pelikan/Boot.
-- * pelikanOS/src/shell.c, the shell: Pelikan/Shell (shell_run by keys, dispatch and the commands), with
--   Shell/Line on the buffer, Shell/Split on words and Shell/Typing on a line and Enter.
-- * pelikanOS/src/gdt.c and pelikanOS/src/idt.c, the tables of the processor: Pelikan/Descriptors, with
--   Descriptors/Decode on what the processor reads.
-- * pelikanOS/src/isr.c, pelikanOS/src/pic.c, pelikanOS/src/clock.c and pit_init of
--   pelikanOS/src/kernel.c: Pelikan/Interrupts.
-- * pelikanOS/src/itoa.c, numbers as text: Pelikan/Itoa, with Itoa/Value on the digits and Itoa/Turn
--   on the loop that turns the buffer round.
-- * pelikanOS/src/string.c, memory and strings: Pelikan/Cstring, with Cstring/Laws.
-- * pelikanOS/src/scheduler.c and pelikanOS/src/mutex_lock.c: Pelikan/Tasks (`task_t` in a store by
--   address, and the linked queues), with Tasks/Chain and Tasks/Queue on links and lists;
--   Pelikan/Scheduler (schedule, thread_exit, reaper_thread, mutex_lock and mutex_unlock on the
--   queues and states), with Scheduler/States, Switches, Locks and Reaper on each operation and
--   Scheduler/Steps on the system as it runs, Newcomer on create_task in a step, and Waiting, Fifo and
--   Progress on the turns of the tasks.
-- * my_malloc/src/my_malloc.c, the allocator on sbrk: MyMalloc, with MyMalloc/Separate on its blocks.
--
-- How they interact. The lexer's tokens go to the parser, its trees to the code generator, the bytes
-- to the machine. The scheduler and the mutex share the tasks and the ready queue; a switch
-- (`swtch`) hands the processor from the loop to a task and back, and the steps of Scheduler/Steps
-- are what a task does between two switches.
--
-- How C is modelled. A function that updates an object returns the new object. `exit(1)` and
-- undefined behaviour (a read or write outside an array, a signed overflow) are error values. An
-- `int` is an integer with the test `fits_int`; an unsigned integer of w bits is a number with its
-- modulus written out. The byte array of the compiler is the list of the bytes written. A string
-- is the list of its bytes. A task is known by its address, 0 being the null pointer.
--
-- Fuel. `vm_run` takes a bound on its rounds, and the meaning of a program one on the depth of its
-- execution; the theorems say that a number of rounds exists with which the machine ends. The lexer
-- and the parser take a bound on their rounds and calls, and the theorems name one that is enough.
--
-- The search of kmalloc is bounded by the number of blocks and two more, the listing of tasks by the
-- number of tasks.
--
-- Not modelled: heap_dump, which only prints, and the functions that spawned tasks run. The assembly,
-- what the ports do and the switch of stacks are outside what the model can say.
pub mod Prelude
pub mod Bytecode
pub mod Pelikan
pub mod MyMalloc
