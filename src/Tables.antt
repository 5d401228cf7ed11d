-- ===== src/Tables.antt =====
-- kernel/arch/x86: the descriptor tables that gdt.c and idt.c fill.
pub mod Gdt
pub mod Idt
pub mod Tss
pub mod Flush
