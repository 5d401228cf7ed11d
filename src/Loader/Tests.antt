-- ===== src/Loader/Tests.antt =====
-- The boot loader with a BIOS of two entries.
use kernel_v.Base.{true, false, ℕ, ◌+◌, ◌-◌, ◌≤◌, ◌<◌, ◌≡◌, refl, arith, [], none, take, u8, codes}
use kernel_v.Kernel.{Kernel}
use kernel_v.Loader.{message, enters, halts_with, then_stage2, stage1, load}
use kernel_v.Loader.Protected.{Cpu, IsFlat, enter_protected, enter_protected_lem}
use kernel_v.Base.Bits.{bit}
use kernel_v.Loader.Run.{load_lem}
use kernel_v.MemoryMap.{MapState, parse_and_print_e820_map}
use kernel_v.MemoryMap.Read.{e820_map}
use kernel_v.MemoryMap.Usable.{available}
use kernel_v.Samples.{machine}
use kernel_v.Samples.Bios.{two_entries, bios, served}

abbrev empty_map : MapState
empty_map = record { usable_memory_region = []; console = machine.diag.console }

load_lem_example :
    (k' : Kernel) × (load 3 bios machine ≡ enters k')
    × ((x : ℕ) → 0x10000 ≤ x → x < 0x16000 → k'.ram x ≡ u8 (0x1200 + (x - 0x10000)))
    × (e820_map k' ≡ two_entries)
    × ((parse_and_print_e820_map (e820_map k') empty_map).usable_memory_region
        ≡ take 32 (available two_entries))
load_lem_example =
    load_lem two_entries bios (λ x. x) machine empty_map refl refl served (omega arith) refl

no_disk :
    load 3 (record bios { disk = none }) machine
    ≡ halts_with (message (codes "Disk Read Error: Stage II cannot be loaded\n\r"))
unfolding load then_stage2 stage1
no_disk = refl

-- The processor as the BIOS leaves it.
abbrev real_mode : Cpu
real_mode = record {
  video_mode = 0x03;
  interrupts = true;
  gdtr = record { limit = 0; base = 0 };
  idtr = record { limit = 0x3FF; base = 0 };
  cr0 = 0x10;
  cs = 0;
  ds = 0;
  es = 0;
  gs = 0;
  fs = 0;
  ss = 0;
  eip = 0x7E00;
}

enter_protected_lem_example :
    let c' = enter_protected 0x7F20 0x7F50 real_mode in
    (c'.eip ≡ 0x10000)
    × (c'.interrupts ≡ false)
    × (bit 0 c'.cr0 ≡ 1)
    × (c'.gdtr.base ≡ 0x7F20)
    × IsFlat 0x14000 104 c'.cs 0x9A c'
    × IsFlat 0x14000 104 c'.ds 0x92 c'
    × (c'.es ≡ c'.ds)
    × (c'.fs ≡ c'.ds)
    × (c'.gs ≡ c'.ds)
    × (c'.ss ≡ c'.ds)
enter_protected_lem_example = enter_protected_lem 0x7F20 0x7F50 0x14000 104 real_mode
