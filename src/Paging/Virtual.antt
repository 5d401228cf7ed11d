-- ===== src/Paging/Virtual.antt =====
-- `paging_map_page` of kernel/memory/paging.c with its accesses to the directory and the tables made
-- through the tables, as the processor makes them once paging is on.
pub mod Same
pub mod Call
pub mod Fault
pub mod Demand
use kernel_v.Base.{
  ℕ, zero, suc, ◌+◌, ◌*◌, ◌/◌, ◌%◌, [], Option, none, some, ◌>>=◌, bit_and, bit_or, ◌>>>◌, ◌==◌,
  if◌then◌else◌, codes,
}
use kernel_v.Kernel.{Kernel}
use kernel_v.Panik.{Diag, Outcome, returns, halts, panik}
use kernel_v.Paging.{page_directory, page_entries, page_present, page_write}
use kernel_v.Paging.Memory.{load32, store32}
use kernel_v.Paging.Walk.{walk}
use kernel_v.Pmm.{pmm_alloc_frame}

-- An access at an address that the entry maps; without an entry it faults.
unfoldable pub load_mapped : Option ℕ → (addr : ℕ) → Kernel → Option ℕ
load_mapped none addr k = none
load_mapped (some pte) addr k = some (load32 (pte / 4096 * 4096 + addr % 4096) k)

unfoldable pub load_virtual : (addr : ℕ) → Kernel → Option ℕ
load_virtual addr k = load_mapped (walk k addr) addr k

unfoldable pub store_mapped : Option ℕ → (addr value : ℕ) → Kernel → Option Kernel
store_mapped none addr value k = none
store_mapped (some pte) addr value k = some (store32 (pte / 4096 * 4096 + addr % 4096) value k)

unfoldable pub store_virtual : (addr value : ℕ) → Kernel → Option Kernel
store_virtual addr value k = store_mapped (walk k addr) addr value k

-- The loop that clears a new table, from `entry` on.
pub clear_virtual : (rounds page_table entry : ℕ) → Kernel → Option Kernel
clear_virtual zero page_table entry k = some k
clear_virtual (suc rounds) page_table entry k = do
  k' ← store_virtual (page_table + 4 * entry) 0 k
  clear_virtual rounds page_table (entry + 1) k'

pub link_virtual : (page_table pdir_index : ℕ) → Kernel → Option Kernel
link_virtual page_table pdir_index k = do
  k' ← clear_virtual page_entries page_table 0 k
  store_virtual (page_directory + 4 * pdir_index)
      (bit_or (bit_or page_table page_present) page_write) k'

pub enter_virtual : (page_table virtual_addr physical_addr flags : ℕ) → Kernel → Option Kernel
enter_virtual page_table virtual_addr physical_addr flags k =
    store_virtual (page_table + 4 * bit_and (virtual_addr >>> 12) 0x03FF)
      (bit_or (bit_and physical_addr 0xFFFFF000) (bit_and flags 0xFFF)) k

-- A call that has not faulted returns.
abbrev pub not_faulted : Kernel → Option (Outcome Kernel)
not_faulted k = some (returns k)

pub fill_virtual :
    (virtual_addr physical_addr flags page_table : ℕ) → Kernel → Option (Outcome Kernel)
fill_virtual virtual_addr physical_addr flags page_table k = do
  k₁ ← link_virtual page_table (virtual_addr >>> 22) k
  k₂ ← enter_virtual page_table virtual_addr physical_addr flags k₁
  not_faulted k₂

pub after_panik_virtual :
    Outcome Diag → (Kernel → Option (Outcome Kernel)) → Kernel → Option (Outcome Kernel)
after_panik_virtual (returns d) next k = next (record k { diag = d })
after_panik_virtual (halts d) next k = some (halts (record k { diag = d }))

pub new_table_virtual :
    (ℕ → Kernel → Option (Outcome Kernel)) → ℕ × Kernel → Option (Outcome Kernel)
new_table_virtual next (page_table, k) =
    if page_table == 0
    then after_panik_virtual
        (panik (codes "Out of memory: Unable to allocate frame for new page table") [] k.diag)
        (next page_table) k
    else next page_table k

-- `none` where an access faults. The bitmap of the frames is accessed as before.
pub paging_map_page_virtual :
    (virtual_addr physical_addr flags : ℕ) → Kernel → Option (Outcome Kernel)
paging_map_page_virtual virtual_addr physical_addr flags k =
    let present = λ (entry : ℕ).
      enter_virtual (bit_and entry 0xFFFFF000) virtual_addr physical_addr flags k >>= not_faulted in
    let absent =
      new_table_virtual (fill_virtual virtual_addr physical_addr flags) (pmm_alloc_frame k) in
    load_virtual (page_directory + 4 * (virtual_addr >>> 22)) k >>= λ entry.
    if bit_and entry page_present == 0 then absent else present entry
