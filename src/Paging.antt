-- ===== src/Paging.antt =====
-- kernel/memory/paging.c: the page directory, the first page table, and mapping a page.
pub mod Memory
pub mod Walk
pub mod Identity
pub mod Entries
pub mod Map
pub mod Grow
pub mod Absent
pub mod Start
pub mod Exhausted
pub mod Safe
pub mod Frames
pub mod Mapping
pub mod Growth
pub mod Total
pub mod Steps
pub mod Low
pub mod Data
pub mod Virtual
pub mod Demand
pub mod Room
pub mod Accounts
mod Tests
use kernel_v.Base.{
  ℕ, ◌+◌, ◌*◌, List, [], ◌∷◌, bit_and, bit_or, ◌>>>◌, for_range, ◌==◌, if◌then◌else◌, codes,
}
use kernel_v.Kernel.{Kernel, say}
use kernel_v.Panik.{Diag, Outcome, returns, halts, panik}
use kernel_v.Pmm.{page_size, pmm_alloc_frame}
use kernel_v.Printk.Format.{word}
use Memory.{load32, store32}

abbrev pub page_entries : ℕ
page_entries = 1024

abbrev pub page_directory : ℕ
page_directory = 0x80000

abbrev pub first_page_table : ℕ
first_page_table = 0x81000

abbrev pub page_present : ℕ
page_present = 0x1

abbrev pub page_write : ℕ
page_write = 0x2

abbrev pub page_user : ℕ
page_user = 0x4

-- `table[entry] = value;`, the table being named by its physical address: the code reaches it there
-- by the identity map of the first 4 MB.
pub set_entry : (table entry value : ℕ) → Kernel → Kernel
set_entry table entry value k = store32 (table + 4 * entry) value k

abbrev pub get_entry : (table entry : ℕ) → Kernel → ℕ
get_entry table entry k = load32 (table + 4 * entry) k

pub identity_entry : ℕ → ℕ
identity_entry entry =
    bit_or (bit_or (bit_or (entry * page_size) page_present) page_write) page_user

-- The stores of `paging_init` to the directory and to the first table.
pub identity_map : Kernel → Kernel
identity_map k =
    let k₁ = for_range page_entries 0 (λ e. set_entry page_directory e 0x00000002) k in
    let k₂ = for_range page_entries 0 (λ e. set_entry first_page_table e (identity_entry e)) k₁ in
    set_entry page_directory 0 (bit_or (bit_or first_page_table page_present) page_write) k₂

pub paging_init : Kernel → Kernel
paging_init k =
    let k₁ = say (codes "[PAGING] Initializing Paging structures...\n") [] k in
    let k₂ = identity_map k₁ in
    let k₃ =
      say (codes "[PAGING] Directory at %p, Table[0] at %p\n")
        (word page_directory ∷ word first_page_table ∷ []) k₂ in
    let k₄ = record k₃ { cr3 = page_directory; cr0 = bit_or k₃.cr0 0x80000000 } in
    say (codes "[PAGING] Paging enabled successfully!\n") [] k₄

-- The entry that `paging_map_page` stores in a table.
pub map_entry : (page_table virtual_addr physical_addr flags : ℕ) → Kernel → Kernel
map_entry page_table virtual_addr physical_addr flags k =
    set_entry page_table (bit_and (virtual_addr >>> 12) 0x03FF)
      (bit_or (bit_and physical_addr 0xFFFFF000) (bit_and flags 0xFFF)) k

-- A new table is cleared and linked.
pub link_table : (page_table pdir_index : ℕ) → Kernel → Kernel
link_table page_table pdir_index k =
    set_entry page_directory pdir_index (bit_or (bit_or page_table page_present) page_write)
      (for_range page_entries 0 (λ e. set_entry page_table e 0) k)

-- What follows a panic for lack of a frame: in test mode the code goes on, with a null table.
pub after_panik : Outcome Diag → (Kernel → Kernel) → Kernel → Outcome Kernel
after_panik (returns d) next k = returns (next (record k { diag = d }))
after_panik (halts d) next k = halts (record k { diag = d })

pub with_new_table : (ℕ → Kernel → Kernel) → ℕ × Kernel → Outcome Kernel
with_new_table next (page_table, k) =
    if page_table == 0
    then after_panik
        (panik (codes "Out of memory: Unable to allocate frame for new page table") [] k.diag)
        (next page_table) k
    else returns (next page_table k)

pub paging_map_page : (virtual_addr physical_addr flags : ℕ) → Kernel → Outcome Kernel
paging_map_page virtual_addr physical_addr flags k =
    let pdir_index = virtual_addr >>> 22 in
    let entry = get_entry page_directory pdir_index k in
    if bit_and entry page_present == 0
    then with_new_table
        (λ page_table k'.
          map_entry page_table virtual_addr physical_addr flags
            (link_table page_table pdir_index k'))
        (pmm_alloc_frame k)
    else returns (map_entry (bit_and entry 0xFFFFF000) virtual_addr physical_addr flags k)
