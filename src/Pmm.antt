-- ===== src/Pmm.antt =====
-- kernel/memory/pmm.c: the physical frames and their bitmap.
pub mod Alloc
pub mod Balance
pub mod Account
pub mod View
pub mod Bitmap
pub mod Free
pub mod Freed
pub mod Fill
pub mod Init
pub mod Pages
pub mod Reserve
pub mod Region
pub mod Supply
mod Tests
use kernel_v.Base.{
  ℕ, zero, suc, ◌+◌, ◌-◌, ◌*◌, ◌/◌, ◌%◌, ◌^◌, List, [], ◌∷◌, Bool, not, Option, none, some, ◌>>=◌,
  bit_and, bit_or, u32, u8, sub32, ◌<<<◌, complement32, for_range, ltb, ◌==◌, if◌then◌else◌, codes,
}
use kernel_v.Kernel.{Kernel, say, store8}
use kernel_v.MemoryMap.{MemoryRegion}
use kernel_v.Printk.Format.{word}

abbrev pub page_size : ℕ
page_size = 4096

abbrev pub frame_index : ℕ → ℕ
frame_index addr = addr / page_size

-- The macros on `frame_bitmap`.
pub bitmap_set : ℕ → Kernel → Kernel
bitmap_set idx k =
    let at = k.frame_bitmap + idx / 8 in store8 at (bit_or (k.ram at) (1 <<< (idx % 8))) k

pub bitmap_clear : ℕ → Kernel → Kernel
bitmap_clear idx k =
    let at = k.frame_bitmap + idx / 8 in
    store8 at (bit_and (k.ram at) (complement32 (1 <<< (idx % 8)))) k

pub bitmap_get : ℕ → Kernel → ℕ
bitmap_get idx k = bit_and (k.ram (k.frame_bitmap + idx / 8)) (1 <<< (idx % 8))

-- `for (uint32_t addr = start; addr < end; addr += PAGE_SIZE)`; `none` where the rounds run out.
pub for_pages {ℓ} : {S : Type ℓ} → ℕ → ℕ → ℕ → (ℕ → S → S) → S → Option S
for_pages zero addr end body s = none
for_pages (suc rounds) addr end body s =
    let rest = for_pages rounds (u32 (addr + page_size)) end body (body addr s) in
    if ltb addr end then rest else some s

-- After `2 ^ 20` rounds the address has come back to where it began: a loop that is then still
-- running has no end.
pub page_rounds : ℕ
page_rounds = 2 ^ 20 + 1

unfoldable pub region_end : MemoryRegion → ℕ
region_end r = u32 (u32 r.base + u32 r.length)

-- Step 1 of `pmm_init`.
unfoldable pub max_frame : List MemoryRegion → ℕ → ℕ
max_frame [] max_frame_idx = max_frame_idx
max_frame (r ∷ regions) max_frame_idx =
    let current_frame_idx = frame_index (region_end r) in
    max_frame regions
      (if ltb max_frame_idx current_frame_idx then current_frame_idx else max_frame_idx)

fill_byte : ℕ → Kernel → Kernel
fill_byte frame k = store8 (k.frame_bitmap + frame) 0xFF k

-- A round of the inner loop of step 4.
free_page : ℕ → Kernel → Kernel
free_page addr k =
    if ltb (frame_index addr) k.max_frame_idx
    then (let k' = bitmap_clear (frame_index addr) k in
        record k' { total_frames = u32 (k.total_frames + 1) })
    else k

pub free_regions : List MemoryRegion → Kernel → Option Kernel
free_regions [] k = some k
free_regions (r ∷ regions) k =
    for_pages page_rounds (u32 r.base) (region_end r) free_page k >>= λ k'. free_regions regions k'

-- Steps 1 to 3.
pub all_used : Kernel → Kernel
all_used k =
    let k₁ = record k {
      total_frames = 0;
      used_frames = 0;
      max_frame_idx = max_frame k.usable_memory_region k.max_frame_idx;
      frame_bitmap = 0x90000;
    } in
    for_range (k₁.max_frame_idx / 8 + 1) 0 fill_byte k₁

-- What it leaves in memory, the words of the stack that the bitmap reaches among it; what a return
-- through such a word does is not said.
pub pmm_init : Kernel → Option Kernel
pmm_init k = do
  k₁ ← free_regions k.usable_memory_region (all_used k)
  let k₂ = record k₁ { used_frames = 0 }
  some (say (codes "[PMM] Total Usable Frames: %u\n") (word k₂.total_frames ∷ []) k₂)

-- A round of the loop of `pmm_set_frame_bitmap`.
pub use_page : ℕ → Kernel → Kernel
use_page addr k =
    if bitmap_get (frame_index addr) k == 0
    then (let k' = bitmap_set (frame_index addr) k in
        record k' { used_frames = u32 (k.used_frames + 1) })
    else k

abbrev pub page_mask : ℕ
page_mask = complement32 (page_size - 1)

pub pmm_set_frame_bitmap : ℕ → ℕ → Kernel → Option Kernel
pmm_set_frame_bitmap start_address end_address k =
    let start = bit_and start_address page_mask in
    let end = bit_and (u32 (end_address + page_size - 1)) page_mask in
    for_pages page_rounds start end use_page k

-- The loop of `pmm_alloc_frame` from `frame_idx` on, by the rounds left; 0 is the null pointer.
alloc_from : ℕ → ℕ → Kernel → ℕ × Kernel
alloc_from zero frame_idx k = (0, say (codes "[PMM] No free frames available!\n") [] k)
alloc_from (suc rounds) frame_idx k =
    let k' = bitmap_set frame_idx k in
    let rest = alloc_from rounds (frame_idx + 1) k in
    if bitmap_get frame_idx k == 0
    then (u32 (frame_idx * page_size), record k' { used_frames = u32 (k.used_frames + 1) })
    else rest

pub pmm_alloc_frame : Kernel → ℕ × Kernel
pmm_alloc_frame k = alloc_from (k.total_frames - 1) 1 k

pub pmm_free_frame : ℕ → Kernel → Kernel
pmm_free_frame addr k =
    let frame_idx = frame_index addr in
    if ltb frame_idx k.total_frames
    then (let k' = bitmap_clear frame_idx k in record k' { used_frames = sub32 k.used_frames 1 })
    else say (codes "[PMM] Attempted to free an invalid frame at address: %p\n") (word addr ∷ []) k
