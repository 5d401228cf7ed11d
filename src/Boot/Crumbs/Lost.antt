-- ===== src/Boot/Crumbs/Lost.antt =====
-- The values of kernel/arch/x86/double_fault_handler.asm and the boot loader: they lie where the loader
-- puts the kernel.
use kernel_v.Base.{
  ℕ, suc, ◌+◌, ◌*◌, ◌^◌, ◌≤◌, ◌≡◌, ◌≢◌, refl, sym, ◌∙◌, arith, List, some, length, u8,
}
use kernel_v.Boot.Crumbs.Found.{Crumbs}
use kernel_v.Kernel.{Kernel}
use kernel_v.Loader.{Bios, enters, load}
use kernel_v.Loader.Map.{Serves}
use kernel_v.Loader.Run.{load_enters}
use kernel_v.MemoryMap.{E820Entry}
use kernel_v.Paging.Memory.{load32}

-- A word of the disk, lowest byte first.
abbrev pub word_at : (ℕ → ℕ) → ℕ → ℕ
word_at disk at =
    u8 (disk at)
    + u8 (disk (at + 1)) * 2 ^ 8
    + u8 (disk (at + 2)) * 2 ^ 16
    + u8 (disk (at + 3)) * 2 ^ 24

u8_twice : (b : ℕ) → u8 (u8 b) ≡ u8 b
u8_twice b = omega arith

-- Whatever was in memory, the values of the double fault handler too, after the boot loader they are not there,
-- unless the kernel's image on the disk has the first of them at the offset of its address.
pub load-Crumbs :
    (es : List E820Entry) (bios : Bios) (disk : ℕ → ℕ) (k : Kernel)
    → bios.extension ≡ some 0xAA55
    → bios.disk ≡ some disk
    → Serves bios.e820 0 es
    → length es ≤ 128
    → word_at disk 0x6200 ≢ 0xDEADBEEF
    → (k' : Kernel) × (load (suc (length es)) bios k ≡ enters k') × (Crumbs k' → ⊥)
load-Crumbs es bios disk k extension read served fits other =
    let r = load_enters es bios disk k extension read served fits in
    let word : load32 0x15000 r.0 ≡ word_at disk 0x6200 =
      rw
        (
          r.2 0x15000 (omega arith) (omega arith),
          r.2 0x15001 (omega arith) (omega arith),
          r.2 0x15002 (omega arith) (omega arith),
          r.2 0x15003 (omega arith) (omega arith),
          u8_twice (disk 0x6200),
          u8_twice (disk 0x6201),
          u8_twice (disk 0x6202),
          u8_twice (disk 0x6203),
        )
        refl in
    (r.0, r.1, λ c. other (sym word ∙ c.first))
