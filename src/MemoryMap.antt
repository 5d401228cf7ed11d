-- ===== src/MemoryMap.antt =====
-- kernel/memory/memory_map.c: the usable regions of the BIOS memory map.
pub mod Usable
pub mod Read
mod Tests
use kernel_v.Base.{
  ℕ, ◌+◌, ◌%◌, ◌/◌, ◌^◌, List, [], ◌∷◌, ◌++◌, Bool, ◌&&◌, ltb, ◌==◌, if◌then◌else◌, length, codes,
  u32, ◌>>>◌,
}
use kernel_v.Printk.{Console, printk}
use kernel_v.Printk.Format.{Arg, word, text}

abbrev pub e820_type_available : ℕ
e820_type_available = 1

abbrev pub max_memory_regions : ℕ
max_memory_regions = 32

-- An entry that the BIOS provides.
pub record E820Entry : Type 0 where
  pub base : ℕ
  pub length : ℕ
  pub type : ℕ
  pub reserved : ℕ

pub record MemoryRegion : Type 0 where
  pub base : ℕ
  pub length : ℕ
  pub type : ℕ

pub region_type_to_string : ℕ → List ℕ
region_type_to_string type =
    if type == 1
    then codes "Available"
    else (if type == 2
        then codes "Reserved"
        else (if type == 3
            then codes "ACPI Reclaimable"
            else (if type == 4
                then codes "ACPI NVS"
                else (if type == 5 then codes "Unusable" else codes "Unknown"))))

-- The first `usable_memory_region_count` entries of `usable_memory_region`, in order, and the
-- console that the messages go to.
pub record MapState : Type 0 where
  pub usable_memory_region : List MemoryRegion
  pub console : Console

abbrev pub count : MapState → ℕ
count s = length s.usable_memory_region

print_entry : ℕ → E820Entry → Console → Console
print_entry i e c =
    (printk (codes "[%u] Base: 0x%08x%08x, Length: 0x%08x%08x, Type: %s\n")
      (word i
        ∷ word (u32 (e.base >>> 32))
        ∷ word (u32 e.base)
        ∷ word (u32 (e.length >>> 32))
        ∷ word (u32 e.length)
        ∷ text (region_type_to_string e.type)
        ∷ [])
      c).1

-- `usable_memory_region[usable_memory_region_count++] = …`, unless the table is full.
keep_entry : E820Entry → List MemoryRegion → List MemoryRegion
keep_entry e regions =
    if e.type == e820_type_available && ltb (length regions) max_memory_regions
    then regions ++ (record { base = e.base; length = e.length; type = e.type } ∷ [])
    else regions

-- The loop over the entries from `i` on.
parse_from : ℕ → List E820Entry → MapState → MapState
parse_from i [] s = s
parse_from i (e ∷ map) s = parse_from (i + 1) map (record {
  usable_memory_region = keep_entry e s.usable_memory_region;
  console = print_entry i e s.console;
})

-- `map` are the entries at E820_MAP_ADDRESS, as many as the count at E820_MAP_COUNT_PTR says.
pub parse_and_print_e820_map : List E820Entry → MapState → MapState
parse_and_print_e820_map map s =
    let c₁ =
      (printk (codes "\n[MEMORY MAP] BIOS provided %u entries:\n") (word (length map) ∷ [])
        s.console).1 in
    let s₁ = parse_from 0 map (record s { console = c₁ }) in
    record s₁ {
      console =
          (printk (codes "\n[MEMORY MAP] Usable memory regions count: %u\n") (word (count s₁) ∷ [])
            s₁.console).1;
    }
