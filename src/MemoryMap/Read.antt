-- ===== src/MemoryMap/Read.antt =====
-- How kernel/memory/memory_map.c finds the entries that the boot loader leaves in memory.
use kernel_v.Base.{ℕ, zero, suc, ◌+◌, ◌*◌, ◌^◌, List, [], ◌∷◌, u8}
use kernel_v.Kernel.{Kernel}
use kernel_v.MemoryMap.{E820Entry}
use kernel_v.Paging.Memory.{load32}

abbrev pub load64 : ℕ → Kernel → ℕ
load64 at k = load32 at k + load32 (at + 4) k * 2 ^ 32

abbrev pub e820_map_address : ℕ
e820_map_address = 0x5000

abbrev pub e820_map_count_ptr : ℕ
e820_map_count_ptr = 0x2004

-- `map[i]`, the packed struct of 24 bytes at `at`.
abbrev pub entry_at : (at : ℕ) → Kernel → E820Entry
entry_at at k = record {
  base = load64 at k;
  length = load64 (at + 8) k;
  type = load32 (at + 16) k;
  reserved = load32 (at + 20) k;
}

abbrev pub e820_count : Kernel → ℕ
e820_count k = u8 (k.ram e820_map_count_ptr) + u8 (k.ram (e820_map_count_ptr + 1)) * 2 ^ 8

-- The entries that the loop over `map` visits, from `i` on.
unfoldable pub entries_from : (rounds i : ℕ) → Kernel → List E820Entry
entries_from zero i k = []
entries_from (suc rounds) i k =
    entry_at (e820_map_address + 24 * i) k ∷ entries_from rounds (i + 1) k

unfoldable pub e820_map : Kernel → List E820Entry
unfolding entries_from
e820_map k = entries_from (e820_count k) 0 k
