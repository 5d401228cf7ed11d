-- ===== src/Lib.antt =====
-- Kernel-V, a small kernel for 32-bit x86: its screen, its log and panic messages, the memory map
-- that the BIOS gives, the physical frames, the page tables with the page fault handler, the
-- descriptor tables, and the start that puts them together.
--
-- The parts and where they are modelled:
-- * kernel/drivers/vga/vga.c in Vga.antt: `Vga` is the screen memory as a function of the offset,
--   the cursor, and the CRTC registers that the cursor is sent to. Vga/Scroll and Vga/Bounds are
--   about the memory, Vga/Cursor about the cursor, Vga/Paper about what the screen shows.
-- * kernel/lib/printk.c in Printk.antt and below: the log buffer in Printk/Ring, the levels in
--   Printk/Level, `my_vsnprintf` in Printk/Format. `Console` is the log and the screen, which
--   `printk` writes both. Printk/Format/Spec says what a format and its arguments read as a text.
-- * kernel/lib/panik.c in Panik.antt: `Diag` is the console, the mode, the state kept for tests and
--   the interrupt flag. A call ends in `Outcome`: it returns or it halts for good.
-- * bootloader/stage1.asm and bootloader/stage2.asm in Loader.antt: the reads from the disk and the
--   loop over the memory map, with the BIOS as a parameter (`Bios`). Loader/Map is about the loop,
--   Loader/Protected about the switch to protected mode.
-- * kernel/memory/memory_map.c in MemoryMap.antt: the loop takes the entries as a list, which
--   MemoryMap/Read reads from the memory that the boot loader leaves.
-- * kernel/memory/pmm.c in Pmm.antt, over the state `Kernel` of Kernel.antt, whose memory is a
--   function of the address. Pmm/Bitmap reads the bitmap as a set of used frames, and the other
--   modules below Pmm describe the operations on that set.
--   Pmm/Region is about the regions that the kernel reserves for itself, Pmm/Supply about how many
--   frames are left, Pmm/Account about the count of used frames. Pmm/View has what the allocator
--   promises as operations on a quotient, which forgets all but the set, the total and the count.
-- * kernel/memory/paging.c in Paging.antt, over the same state: the directory and the tables lie in
--   its memory, and `cr0` and `cr3` are the control registers. Paging/Walk reads an address through
--   the tables as the processor does. Paging/Safe says when the bitmap, the directory and the tables
--   cannot overwrite each other, Paging/Frames, Paging/Mapping and Paging/Growth that the operations
--   keep this, Paging/Steps that any sequence of them does, and Paging/Demand puts an allocation and
--   a mapping together. Paging/Accounts is about the count along the steps, Paging/Room and Paging/Low
--   about where tables stand. Paging/Virtual is `paging_map_page` with its accesses through the tables.
-- * kernel/memory/page_fault.c in PageFault.antt: `page_fault_handler` takes the frame on the stack,
--   the fault address of `cr2` and the registers, and resumes, stops in a loop of `hlt`, or faults
--   itself (`Handled`). PageFault/Virtual has its accesses made through the tables. PageFault/Isr is
--   about kernel/arch/x86/isr_page_fault.asm, and PageFault/Access lets a program run into its faults.
-- * kernel/arch/x86/gdt.c, kernel/arch/x86/idt.c and kernel/arch/x86/tss.c in Tables.antt: the entries
--   that are stored, and how the processor reads them. Tables/Flush is about
--   kernel/arch/x86/gdt_flush.asm and kernel/arch/x86/idt_flush.asm.
-- * kernel/main/kernel.c in Boot.antt: `kernel_main` in Boot/Main, stage by stage, over a `Machine`,
--   which is `Kernel` with the descriptor tables and their registers; the addresses of the linker and
--   the map of the BIOS are an `Image`. A stage goes on, halts in a panic, or never ends (`Stage`).
--   Boot/Stack is about the loop that maps the stack, Boot/High and Boot/Overflow about the code that
--   runs on it, Boot/Debug about the messages on the tables, Boot/Crumbs about
--   kernel/arch/x86/double_fault_handler.asm, Boot/Entry about kernel/arch/x86/kernel_entry.asm with
--   the first stack, what the bitmap does to it, and the switch to the second. Boot/Stack/Virtual, Boot/Main/Virtual and
--   Boot/High/Virtual are the start with its accesses to the tables made through the tables.
-- * kernel/tests/test_panik.c and kernel/tests/test_printk.c in SelfTests.antt, with the macros of
--   kernel/include/assert.h; the name of the file that the compiler inserts is a parameter.
-- Samples.antt has the states that the tests of each part, in its module Tests, begin with.
--
-- Numbers are natural numbers; where the code's 32 bits wrap, the model does (`u32`, `sub32`). A
-- C string is a list of bytes up to its first 0 or, where none is in the list, its end. An argument
-- of `printk` is a word or a pointer to a string.
--
-- Loops are recursion on the list or on the number of rounds. The loop of `my_vsnprintf` takes at
-- least a byte of the format in each round, so the length of the format and one more is enough. The
-- loops over pages take `2 ^ 20 + 1` rounds: a loop that goes on longer has come back to the
-- address that it began with and does not end, and the model then gives `none`. The loop over the
-- stack's pages takes 16 rounds for its 15 pages and the last test. Where C leaves a
-- call of `my_vsnprintf` undefined (an argument that is missing or no pointer, the least `int`
-- negated, a width beyond `int`, a format that ends inside a conversion) the model gives `none`, and
-- `printk` marks the console as `undefined`: of the bytes from there on nothing is said.
--
-- The boot loader's loop over the memory map takes a round for each entry and one more, for a map of
-- at most 128 entries, as kernel/include/memory_map.h allows (E820_MAX_ENTRIES).
--
-- The bitmap lies at 0x90000 in the same memory as everything else. `paging_map_page` addresses memory
-- physically: once paging is on, the code reaches a table under its physical address by the identity
-- map alone. `paging_map_page_virtual` is the same call with its accesses made through the tables,
-- where one can fault; Paging/Virtual relates the two, as PageFault/Virtual and Boot/High/Virtual do
-- for the page fault handler and the start.
-- The stores of page_fault.c to address 0, of kernel.c to its heap and of double_fault_handler.asm go
-- through the tables too. The screen is a memory of its own, which the paging of the model does not
-- touch. There is no translation buffer.
--
-- The GDT is a list and the IDT a function of entries beside the memory. `ltr` in kernel/arch/x86/gdt.c
-- changes the GDT: the entry of the task state becomes busy, and `gdt_init` is the table after that.
-- `enters_task` of Boot/Main/DoubleFault is the processor's test of a task gate;
-- `double_fault_handler` has the handler's instructions alone.
--
-- The start runs on the stack at 0x9FB00, behind the bitmap. `Roomy`, the condition of the start, has the
-- bitmap end at 0x9C000 or below, which leaves 15,104 bytes of stack; the two buffers of 1,024 bytes of
-- `printk` are the largest of its calls. Boot/Entry/Overwritten is about a bitmap that is longer.
--
-- Not modelled: what the BIOS shows on the screen, the image that bootloader/image.sh puts together,
-- the unused bootloader/stage2_copy.asm, and kernel/linker/kernel.ld, whose addresses are parameters.
-- Of kernel/arch/x86/isr_page_fault.asm the pushes are modelled, and not the segment registers it
-- loads, the interrupt flag, and its pops at the end. But for the words of the call of
-- `switch_to_high_stack`, what the functions of the kernel put on the stack is no part of the model,
-- so `test_stack_overflow` of kernel/main/kernel.c takes the size of its frames, which the compiler
-- chooses, as a parameter, and the level whose frame is not mapped ends it; how the processor raises
-- that fault on a stack that is used up is not modelled.
pub mod Base
pub mod Vga
pub mod Printk
pub mod Panik
pub mod MemoryMap
pub mod Loader
pub mod Kernel
pub mod Pmm
pub mod Paging
pub mod PageFault
pub mod Tables
pub mod Boot
pub mod SelfTests
pub mod Samples
