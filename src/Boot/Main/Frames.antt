-- ===== src/Boot/Main/Frames.antt =====
-- The stage of `kernel_main` in kernel/main/kernel.c that sets up the frames.
use kernel_v.Base.{
  ℕ, suc, ◌+◌, ◌-◌, ◌/◌, ◌^◌, ◌≤◌, ◌<◌, ◌≡◌, refl, ap, ◌∙◌, arith, Bool, not, ◌||◌, ltb, List, some,
  u32,
}
use kernel_v.Boot.Main.{Image, start_frames, try_frame1, try_frame2}
use kernel_v.Boot.Main.Framed.{Framed, withheld, Spared, try_frame-Framed, try_frame-Spared}
use kernel_v.Kernel.{Kernel}
use kernel_v.MemoryMap.{MemoryRegion}
use kernel_v.Panik.{normal}
use kernel_v.Pmm.{max_frame}
use kernel_v.Pmm.Bitmap.{used}
use kernel_v.Pmm.Freed.{AllEnd, covered, frames_sum}
use kernel_v.Pmm.Init.{pmm_init-Freed, max_frame_bound}
use kernel_v.Pmm.Region.Adds.{Adds, asked_for, meets, pmm_reserve_memory_region-Adds}
use kernel_v.Pmm.Reserve.{Kept, Kept-trans, count_free}
use kernel_v.Pmm.Supply.{free_frames, count_free_below}

asked_init :
    (image : Image) (k : Kernel) (g : ℕ)
    → asked_for image.kernel_start image.kernel_end 7 k g ≡ ltb g 256
asked_init image k g = ground arith

asked_kernel :
    (image : Image) (k : Kernel) (g : ℕ)
    → asked_for image.kernel_start image.kernel_end 8 k g
      ≡ meets image.kernel_start image.kernel_end g
asked_kernel image k g = ground arith

asked_bitmap :
    (image : Image) (k : Kernel) (g top : ℕ)
    → k.frame_bitmap ≡ 0x90000
    → k.max_frame_idx ≡ top
    → asked_for image.kernel_start image.kernel_end 16 k g
      ≡ meets 0x90000 (u32 (0x90000 + (top / 8 + 1))) g
asked_bitmap image k g top at most = rw (at, most) (ground arith)

arrange : (l m b c : Bool) → b || (m || (l || c)) ≡ l || (m || (b || c))
arrange l m b c = ground arith

-- What `pmm_init` leaves.
record Initialised (regions : List MemoryRegion) (k : Kernel) : Type 0 where
  at : k.frame_bitmap ≡ 0x90000
  mode : k.diag.current_panik_mode ≡ normal
  most : k.max_frame_idx ≡ max_frame regions 0
  total : k.total_frames ≡ frames_sum (max_frame regions 0) regions
  few : k.total_frames ≤ max_frame regions 0
  unused : (g : ℕ) → g < max_frame regions 0 → used k g ≡ not (covered regions g)

-- The three reservations, from what `pmm_init` leaves.
module _ (image : Image) (regions : List MemoryRegion) (k k₁ k₂ k₃ : Kernel)
    (i : Initialised regions k) (a₁ : Adds (asked_for image.kernel_start image.kernel_end 7 k) k k₁)
    (a₂ : Adds (asked_for image.kernel_start image.kernel_end 8 k₁) k₁ k₂)
    (a₃ : Adds (asked_for image.kernel_start image.kernel_end 16 k₂) k₂ k₃) where
  kept : Kept k k₃
  kept = Kept-trans a₁.kept (Kept-trans a₂.kept a₃.kept)

  marked :
      (g : ℕ)
      → used k₃ g
        ≡ ltb g 256
          || (meets image.kernel_start image.kernel_end g
              || (meets 0x90000 (u32 (0x90000 + (max_frame regions 0 / 8 + 1))) g || used k g))
  marked g =
      let at : k₂.frame_bitmap ≡ 0x90000 = a₂.kept.frame_bitmap ∙ a₁.kept.frame_bitmap ∙ i.at in
      let most : k₂.max_frame_idx ≡ max_frame regions 0 =
        a₂.kept.max_frame_idx ∙ a₁.kept.max_frame_idx ∙ i.most in
      a₃.set g
      ∙ rw
          (
            a₂.set g,
            a₁.set g,
            asked_init image k g,
            asked_kernel image k₁ g,
            asked_bitmap image k₂ g (max_frame regions 0) at most,
          )
          (arrange (ltb g 256) (meets image.kernel_start image.kernel_end g)
            (meets 0x90000 (u32 (0x90000 + (max_frame regions 0 / 8 + 1))) g) (used k g))

  left :
      free_frames k₃
      ≡ count_free (withheld image regions) (frames_sum (max_frame regions 0) regions - 1) 1
  left =
      ap (λ (n : ℕ). count_free (used k₃) (n - 1) 1) (kept.total_frames ∙ i.total)
      ∙ count_free_below (used k₃) (withheld image regions)
          (frames_sum (max_frame regions 0) regions - 1) 1
          (λ g p q. marked g ∙ rw (i.unused g (omega (arith, q, i.total, i.few))) refl)

  reserved-Spared : Spared image regions 0 k₃
  reserved-Spared m h = omega (
    arith,
    count_free_below (used k₃) (withheld image regions) m 1
        (λ g p q. marked g ∙ rw (i.unused g (omega (arith, q, h))) refl),
  )

  reserved-Framed :
      (n : ℕ)
      → n ≤ count_free (withheld image regions) (frames_sum (max_frame regions 0) regions - 1) 1
      → Framed n k₃
  reserved-Framed n enough = record {
    at = kept.frame_bitmap ∙ i.at;
    few = omega (arith, kept.total_frames, i.few, max_frame_bound regions 0 (omega arith));
    small = a₃.small;
    mode = kept.mode ∙ i.mode;
    low_used = λ g h. marked g ∙ ground arith;
    left = omega (arith, enough, left);
  }

-- How far down the stack that begins at 0x9FB00 may reach: its calls have 15,104 bytes.
abbrev pub stack_low : ℕ
stack_low = 0x9C000

-- The kernel ends below the page directory, the regions end before the last page, the bitmap ends below
-- the stack that `pmm_init` runs on, no frame is counted twice, and the kernel's start and `n + 2` frames that nothing withholds are there.
pub record Roomy (n : ℕ) (image : Image) (regions : List MemoryRegion) : Type 0 where
  pub start : image.kernel_start < 2 ^ 32
  pub below : image.kernel_end ≤ 0x80000
  pub ends : AllEnd regions
  pub clear : 0x90000 + (max_frame regions 0 / 8 + 1) ≤ stack_low
  pub once : frames_sum (max_frame regions 0) regions ≤ max_frame regions 0
  pub room :
      n + 2 ≤ count_free (withheld image regions) (frames_sum (max_frame regions 0) regions - 1) 1

pub start_frames-Framed :
    (n : ℕ) (image : Image) (k : Kernel)
    → k.diag.current_panik_mode ≡ normal
    → k.max_frame_idx ≡ 0
    → Roomy n image k.usable_memory_region
    → (k' : Kernel) × (start_frames image k ≡ some k')
      × Framed n k'
      × Spared image k.usable_memory_region 2 k'
unfolding start_frames
start_frames-Framed n image k mode start room =
    let regions = k.usable_memory_region in
    let init = pmm_init-Freed k room.ends in
    let k₁ : Kernel = init.0 in
    let top : max_frame regions k.max_frame_idx ≡ max_frame regions 0 =
      ap (max_frame regions) start in
    let first : Initialised regions k₁ = record {
      at = init.6;
      mode = init.7 ∙ mode;
      most = init.2 ∙ top;
      total = total k₁ room init.4 top;
      few = omega (arith, total k₁ room init.4 top, room.once);
      unused = λ g h. init.3 g (omega (arith, h, top));
    } in
    let a₁ =
      pmm_reserve_memory_region-Adds image.kernel_start image.kernel_end 7 k₁ room.start
        (omega (arith, first.at)) (omega (arith, init.5)) in
    let a₂ =
      pmm_reserve_memory_region-Adds image.kernel_start image.kernel_end 8 a₁.0 room.start
        (omega (arith, first.at, a₁.2.kept.frame_bitmap)) (a₁.2.small) in
    let a₃ =
      pmm_reserve_memory_region-Adds image.kernel_start image.kernel_end 16 a₂.0 room.start
        (omega (arith, first.at, a₁.2.kept.frame_bitmap, a₂.2.kept.frame_bitmap)) (a₂.2.small) in
    let f =
      reserved-Framed image regions k₁ a₁.0 a₂.0 a₃.0 first a₁.2 a₂.2 a₃.2 (suc (suc n))
        (omega (arith, room.room)) in
    (
      try_frame2 (try_frame1 a₃.0),
      rw (init.1) (rw (a₁.1) (rw (a₂.1) (rw (a₃.1) refl))),
      try_frame-Framed n _ _ (try_frame1 a₃.0) (try_frame-Framed (suc n) _ _ a₃.0 f),
      try_frame-Spared image regions 1 _ _ (try_frame1 a₃.0) (
          try_frame-Spared image regions 0 _ _ a₃.0
            (reserved-Spared image regions k₁ a₁.0 a₂.0 a₃.0 first a₁.2 a₂.2 a₃.2)),
    )
  where
    total :
        (k₁ : Kernel)
        → Roomy n image k.usable_memory_region
        → k₁.total_frames
          ≡ u32
              (frames_sum (max_frame k.usable_memory_region k.max_frame_idx) k.usable_memory_region)
        → max_frame k.usable_memory_region k.max_frame_idx ≡ max_frame k.usable_memory_region 0
        → k₁.total_frames ≡ frames_sum (max_frame k.usable_memory_region 0) k.usable_memory_region
    total k₁ room counted top =
        counted
        ∙ ap (λ (m : ℕ). u32 (frames_sum m k.usable_memory_region)) top
        ∙ omega (arith, room.once, max_frame_bound k.usable_memory_region 0 (omega arith))
