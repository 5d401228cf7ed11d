-- ===== src/Loader/Protected.antt =====
-- bootloader/stage2.asm: the switch to protected mode, and the segments that the kernel runs in.
use kernel_v.Base.{
  ℕ, ◌+◌, ◌-◌, ◌*◌, ◌/◌, ◌^◌, ◌≤◌, ◌≡◌, refl, ◌∙◌, arith, Bool, false, List, [], ◌∷◌, bit_or,
}
use kernel_v.Base.Bits.{bit, bit-bit_or}
use kernel_v.Boot.Main.{gdt_at}
use kernel_v.Tables.Gdt.{
  GdtEntry, GdtPtr, gdt_entry, gdt_table, busy_at, ltr, gdt_init, base_of, limit_of,
}
use kernel_v.Tables.Idt.{IdtPtr}

-- `GDT32`: its null entry, `CodeSegDes32` and `DataSegment32`.
abbrev pub gdt32 : List GdtEntry
gdt32 =
    record {
      limit_low = 0;
      base_low = 0;
      base_middle = 0;
      access = 0;
      granularity = 0;
      base_high = 0;
    }
    ∷ record {
      limit_low = 0xFFFF;
      base_low = 0;
      base_middle = 0;
      access = 0x9A;
      granularity = 0xCF;
      base_high = 0;
    }
    ∷ record {
      limit_low = 0xFFFF;
      base_low = 0;
      base_middle = 0;
      access = 0x92;
      granularity = 0xCF;
      base_high = 0;
    }
    ∷ []

-- The registers of the processor that the loader sets, and the video mode that it asks the BIOS for.
pub record Cpu : Type 0 where
  pub video_mode : ℕ
  pub interrupts : Bool
  pub gdtr : GdtPtr
  pub idtr : IdtPtr
  pub cr0 : ℕ
  pub cs : ℕ
  pub ds : ℕ
  pub es : ℕ
  pub gs : ℕ
  pub fs : ℕ
  pub ss : ℕ
  pub eip : ℕ

-- `SetVideoMode`.
pub set_video_mode : Cpu → Cpu
set_video_mode c = record c { video_mode = 0x03 }

-- `SwitchToProtectedMode`; the assembler gives the addresses of `GDT32` and `PMEntry`.
pub switch_to_protected_mode : (gdt32_address pm_entry_address : ℕ) → Cpu → Cpu
switch_to_protected_mode gdt32_address pm_entry_address c = record c {
  interrupts = false;
  gdtr = record { limit = 8 * 3 - 1; base = gdt32_address };
  idtr = record { limit = 0; base = 0 };
  cr0 = bit_or c.cr0 0x01;
  cs = 0x08;
  eip = pm_entry_address;
}

-- `PMEntry`, up to the jump into the kernel.
pub pm_entry : Cpu → Cpu
pm_entry c = record c {
  ds = 0x10;
  es = 0x10;
  gs = 0x10;
  fs = 0x10;
  ss = 0x10;
  cs = 0x08;
  eip = 0x10000;
}

pub enter_protected : (gdt32_address pm_entry_address : ℕ) → Cpu → Cpu
enter_protected gdt32_address pm_entry_address c =
    pm_entry (switch_to_protected_mode gdt32_address pm_entry_address (set_video_mode c))

-- A selector stands for all of memory from 0 on, in the loader's table and in the kernel's: its entry
-- is within the limit, begins at 0 and has `2 ^ 20` pages, code or data as the access byte says.
abbrev pub IsFlat : (tss_df tss_size sel access : ℕ) → Cpu → Type 0
IsFlat tss_df tss_size sel access c =
    let e = gdt_at (sel / 8) gdt32 in
    (sel + 7 ≤ c.gdtr.limit)
    × (base_of e ≡ 0)
    × (limit_of e ≡ 2 ^ 20 - 1)
    × (e.granularity / 16 ≡ 0xC)
    × (e.access ≡ access)
    × (gdt_at (sel / 8) (gdt_init tss_df tss_size) ≡ e)

-- Whatever the registers and the addresses were: the processor enters 0x10000 with interrupts off, in
-- protected mode, and every segment register has a selector that is within the loader's table and
-- stands for all of memory, `cs` for code and the others for data. The entries that `gdt_init` of the
-- kernel puts at these selectors later are the same, so that none has to be loaded again.
pub enter_protected_lem :
    (gdt32_address pm_entry_address tss_df tss_size : ℕ) (c : Cpu)
    → let c' = enter_protected gdt32_address pm_entry_address c in
      (c'.eip ≡ 0x10000)
      × (c'.interrupts ≡ false)
      × (bit 0 c'.cr0 ≡ 1)
      × (c'.gdtr.base ≡ gdt32_address)
      × IsFlat tss_df tss_size c'.cs 0x9A c'
      × IsFlat tss_df tss_size c'.ds 0x92 c'
      × (c'.es ≡ c'.ds)
      × (c'.fs ≡ c'.ds)
      × (c'.gs ≡ c'.ds)
      × (c'.ss ≡ c'.ds)
unfolding enter_protected pm_entry switch_to_protected_mode set_video_mode gdt_at gdt_init gdt_table
    ltr busy_at gdt_entry
enter_protected_lem gdt32_address pm_entry_address tss_df tss_size c =
    let set : bit 0 (bit_or c.cr0 0x01) ≡ 1 = bit-bit_or 0 c.cr0 1 ∙ ground arith in
    (
      refl,
      refl,
      set,
      refl,
      (omega arith, refl, refl, refl, refl, refl),
      (omega arith, refl, refl, refl, refl, refl),
      refl,
      refl,
      refl,
      refl,
    )
