-- ===== src/Boot/Entry/Overwritten.antt =====
-- The stack of kernel/arch/x86/kernel_entry.asm and the bitmap of kernel/memory/pmm.c.
use kernel_v.Kernel.{Kernel}
