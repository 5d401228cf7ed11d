-- ===== src/MemoryMap/Tests.antt =====
-- kernel/memory/memory_map.c on a concrete map.
use kernel_v.Base.{◌≤◌, ◌≡◌, refl, List, [], ◌∷◌, take}
use kernel_v.MemoryMap.{E820Entry, MapState, count, parse_and_print_e820_map}
use kernel_v.MemoryMap.Usable.{available, usable_memory_region-parse}
use kernel_v.Samples.{console}

abbrev bios_map : List E820Entry
bios_map =
    record { base = 0; length = 0x9FC00; type = 1; reserved = 0 }
    ∷ record { base = 0x9FC00; length = 0x400; type = 2; reserved = 0 }
    ∷ record { base = 0x100000; length = 0x7EE0000; type = 1; reserved = 0 }
    ∷ []

abbrev no_regions : MapState
no_regions = record { usable_memory_region = []; console = console }

two_regions :
    let s' = parse_and_print_e820_map bios_map no_regions in
    (s'.usable_memory_region ≡ take 32 (available bios_map)) × (count s' ≤ 32)
two_regions = usable_memory_region-parse bios_map no_regions refl
