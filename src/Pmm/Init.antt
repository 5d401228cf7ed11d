-- ===== src/Pmm/Init.antt =====
-- `pmm_init` of kernel/memory/pmm.c: which frames are free after it.
use kernel_v.Base.{
  subst, codes, ℕ, zero, suc, ◌+◌, ◌/◌, ◌%◌, ◌^◌, ◌<◌, ◌≤◌, ◌≡◌, refl, ◌∙◌, arith, true, not, ◌&&◌,
  ◌||◌, some, u32, leb, ltb, ◌==◌, for_range, List, [], ◌∷◌,
}
use kernel_v.Kernel.{Kernel, say}
use kernel_v.Printk.Format.{word}
use kernel_v.MemoryMap.{MemoryRegion}
use kernel_v.Pmm.{region_end, max_frame, fill_byte, all_used, pmm_init}
use kernel_v.Pmm.Bitmap.{used, bit-ones}
use kernel_v.Pmm.Freed.{AllEnd, covered, frames_sum, Freed, free_regions-Freed}

fill_byte_lem : (i g : ℕ) (k : Kernel) → used (fill_byte i k) g ≡ (g / 8 == i) || used k g
unfolding fill_byte
fill_byte_lem i g k = ground (arith, bit-ones (g % 8))

-- Filling bytes `i` up to `i + n` of the bitmap.
fill_lem :
    (n i : ℕ) (k : Kernel)
    → let k' = for_range n i fill_byte k in
      (k'.frame_bitmap ≡ k.frame_bitmap)
      × (k'.max_frame_idx ≡ k.max_frame_idx)
      × (k'.total_frames ≡ k.total_frames)
      × (k'.diag.current_panik_mode ≡ k.diag.current_panik_mode)
      × ((g : ℕ) → used k' g ≡ (leb i (g / 8) && ltb (g / 8) (i + n)) || used k g)
unfolding for_range
fill_lem zero i k = (refl, refl, refl, refl, λ g. ground arith)
fill_lem (suc n) i k =
    let ih = fill_lem n (i + 1) (fill_byte i k) in
    let kept : ((fill_byte i k).frame_bitmap ≡ k.frame_bitmap)
        × ((fill_byte i k).max_frame_idx ≡ k.max_frame_idx)
        × ((fill_byte i k).total_frames ≡ k.total_frames)
        × ((fill_byte i k).diag.current_panik_mode ≡ k.diag.current_panik_mode) =
      unfold fill_byte in (refl, refl, refl, refl) in
    (
      ih.0 ∙ kept.0,
      ih.1 ∙ kept.1,
      ih.2 ∙ kept.2,
      ih.3 ∙ kept.3,
      λ g. ih.4 g ∙ ground (arith, fill_byte_lem i g k),
    )

-- Steps 1 to 3: every frame below `max_frame_idx` is marked as used.
all_used_lem :
    (k : Kernel)
    → let k' = all_used k in
      (k'.max_frame_idx ≡ max_frame k.usable_memory_region k.max_frame_idx)
      × (k'.total_frames ≡ 0)
      × (k'.frame_bitmap ≡ 0x90000)
      × (k'.diag.current_panik_mode ≡ k.diag.current_panik_mode)
      × ((g : ℕ) → g < k'.max_frame_idx → used k' g ≡ true)
unfolding all_used
all_used_lem k =
    let top : ℕ = max_frame k.usable_memory_region k.max_frame_idx in
    let start : Kernel = record k {
      total_frames = 0;
      used_frames = 0;
      max_frame_idx = top;
      frame_bitmap = 0x90000;
    } in
    let filled = fill_lem (top / 8 + 1) 0 start in
    (filled.1, filled.2, filled.0, filled.3, λ g h. filled.4 g ∙ ground (arith, filled.1))

-- When every region ends, as 32 bits show it, before the last page, `pmm_init` ends. Below `max_frame_idx` the
-- free frames are then those of the regions' pages, each counted as often as a region has it, and none is counted as used.
-- The bitmap is at 0x90000, and the panic mode is as before.
pub pmm_init-Freed :
    (k : Kernel)
    → AllEnd k.usable_memory_region
    → let top : ℕ = max_frame k.usable_memory_region k.max_frame_idx in
      (k' : Kernel) × (pmm_init k ≡ some k')
      × (k'.max_frame_idx ≡ top)
      × ((g : ℕ) → g < top → used k' g ≡ not (covered k.usable_memory_region g))
      × (k'.total_frames ≡ u32 (frames_sum top k.usable_memory_region))
      × (k'.used_frames ≡ 0)
      × (k'.frame_bitmap ≡ 0x90000)
      × (k'.diag.current_panik_mode ≡ k.diag.current_panik_mode)
unfolding pmm_init
pmm_init-Freed k ends =
    let used_first = all_used_lem k in
    let regions = k.usable_memory_region in
    let top : ℕ = max_frame regions k.max_frame_idx in
    let freed = free_regions-Freed regions (all_used k) (omega (arith, used_first.1)) ends in
    let k₁ : Kernel = freed.0 in
    let f : Freed top (frames_sum top regions) (covered regions) (all_used k) k₁ =
      subst (λ t. Freed t (frames_sum t regions) (covered regions) (all_used k) k₁) used_first.0
        freed.2 in
    (
      say (codes "[PMM] Total Usable Frames: %u\n") (word k₁.total_frames ∷ [])
          (record k₁ { used_frames = 0 }),
      rw (freed.1) refl,
      f.max_frame_idx ∙ used_first.0,
      λ g h. f.set g h ∙ ground (arith, used_first.4 g, used_first.0),
      f.counted ∙ omega (arith, used_first.1),
      refl,
      f.frame_bitmap ∙ used_first.2,
      f.mode ∙ used_first.3,
    )

-- The last frame that a region reaches fits 20 bits.
pub max_frame_bound :
    (regions : List MemoryRegion) (m : ℕ) → m ≤ 2 ^ 20 → max_frame regions m ≤ 2 ^ 20
unfolding max_frame region_end
max_frame_bound [] m h = h
max_frame_bound (r ∷ regions) m h = max_frame_bound regions _ (ground arith)
