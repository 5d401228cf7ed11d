-- ===== src/Paging/Walk.antt =====
-- How the processor reads the tables that kernel/memory/paging.c writes.
use kernel_v.Base.{ℕ, ◌+◌, ◌*◌, ◌/◌, ◌%◌, ◌^◌, ◌==◌, Option, some, none, if◌then◌else◌}
use kernel_v.Kernel.{Kernel}
use kernel_v.Paging.Memory.{load32}

-- The entry of the page table under a directory entry, where both are present.
abbrev pub walk_table : (pde address : ℕ) → Kernel → Option ℕ
walk_table pde address k =
    let pte = load32 (pde / 4096 * 4096 + 4 * (address / 4096 % 1024)) k in
    if pde % 2 == 0 then none else (if pte % 2 == 0 then none else some pte)

-- The entry that maps a virtual address, if it is mapped.
abbrev pub walk : Kernel → ℕ → Option ℕ
walk k address = walk_table (load32 (k.cr3 / 4096 * 4096 + 4 * (address / 2 ^ 22)) k) address k
