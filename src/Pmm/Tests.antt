-- ===== src/Pmm/Tests.antt =====
-- kernel/memory/pmm.c on a concrete machine.
use kernel_v.Base.{
  ◌⊎◌, ◌≤◌, ℕ, ◌+◌, ◌-◌, ◌/◌, ◌<◌, ◌≡◌, refl, arith, not, ◌&&◌, ◌||◌, ◌==◌, some, u32, sub32, ◌%◌,
}
use kernel_v.Kernel.{Kernel}
use kernel_v.Pmm.{
  region_end, max_frame, pmm_init, pmm_set_frame_bitmap, bitmap_get, alloc_from, pmm_alloc_frame,
  pmm_free_frame,
}
use kernel_v.Pmm.Alloc.{Searched, pmm_alloc_frame-Searched}
use kernel_v.Pmm.Free.{pmm_free_frame_lem}
use kernel_v.Pmm.Bitmap.{used}
use kernel_v.Pmm.Freed.{AllEnd, covered, frames_sum}
use kernel_v.Pmm.Init.{pmm_init-Freed}
use kernel_v.Pmm.Region.{pmm_reserve_memory_region}
use kernel_v.Pmm.Region.Adds.{asked_for, pmm_reserve_memory_region_lem}
use kernel_v.Panik.{normal}
use kernel_v.Pmm.Reserve.{Reserved, pmm_set_frame_bitmap-Reserved}
use kernel_v.Samples.{machine}
use kernel_v.Pmm.View.{SameFrames, view, pmm_alloc_frame-view}
use kernel_v.Pmm.View.Order.{pmm_set_frame_bitmap_comm}
use mathlib.Core.Quot
use kernel_v.Base.Bits.{bit}
use kernel_v.Base.{ap, Bool, ◌%◌, ◌>>=◌, ◌==◌, if◌then◌else◌}

pmm_alloc_frame-Searched_example : Searched machine 1 16 (pmm_alloc_frame machine)
pmm_alloc_frame-Searched_example = pmm_alloc_frame-Searched machine

-- Frame 3 is the least free one.
third_frame : (pmm_alloc_frame machine).0 ≡ 0x3000
unfolding pmm_alloc_frame alloc_from bitmap_get
third_frame = refl

-- The same frames in a bitmap that stands elsewhere.
abbrev moved : Kernel
moved = record machine { ram = λ x. if x == 0x40000 then 0x17 else 0; frame_bitmap = 0x40000 }

moved-SameFrames : SameFrames machine moved
moved-SameFrames = record {
  frames = λ g h.
      let same : (0x90000 + g / 8 == 0x90000) ≡ (0x40000 + g / 8 == 0x40000) = ground arith in
      ap (λ (t : Bool). bit (g % 8) (if t then 0x17 else 0) == 1) same;
  few = omega arith;
  total = refl;
  counted = refl;
}

pmm_alloc_frame-view_example :
    ((pmm_alloc_frame machine).0 ≡ (pmm_alloc_frame moved).0)
    × (view (pmm_alloc_frame machine).1 ≡ view (pmm_alloc_frame moved).1)
    × ((addr : ℕ) → view (pmm_free_frame addr machine) ≡ view (pmm_free_frame addr moved))
pmm_alloc_frame-view_example = pmm_alloc_frame-view machine moved (Quot.sound moved-SameFrames)

-- Two ranges that share frame 4.
pmm_set_frame_bitmap_comm_example :
    (a b : Kernel) × (pmm_set_frame_bitmap 0x3800 0x5000 machine
        >>= pmm_set_frame_bitmap 0x4000 0x7001
      ≡ some a)
    × (pmm_set_frame_bitmap 0x4000 0x7001 machine >>= pmm_set_frame_bitmap 0x3800 0x5000 ≡ some b)
    × (view a ≡ view b)
pmm_set_frame_bitmap_comm_example =
    pmm_set_frame_bitmap_comm 0x3800 0x5000 0x4000 0x7001 machine (omega arith) (omega arith)
      (omega arith) (omega arith)

pmm_free_frame_lem_example :
    let k' = pmm_free_frame 0x4000 machine in
    ((0x4000 / 4096 < machine.total_frames)
      × ((g : ℕ) → used k' g ≡ not (0x4000 / 4096 == g) && used machine g)
      × (k'.used_frames ≡ sub32 machine.used_frames 1)
      × ((x : ℕ) → x < machine.frame_bitmap → k'.ram x ≡ machine.ram x))
    ⊎ ((machine.total_frames ≤ 0x4000 / 4096)
        × (k'.ram ≡ machine.ram)
        × ((g : ℕ) → used k' g ≡ used machine g)
        × (k'.used_frames ≡ machine.used_frames))
pmm_free_frame_lem_example = pmm_free_frame_lem 0x4000 machine

pmm_set_frame_bitmap-Reserved_example :
    (k' : Kernel) × (pmm_set_frame_bitmap 0x3800 0x5001 machine ≡ some k')
    × Reserved (u32 (0x5001 + 4095) / 4096 - 0x3800 / 4096) (0x3800 / 4096) machine k'
pmm_set_frame_bitmap-Reserved_example =
    pmm_set_frame_bitmap-Reserved 0x3800 0x5001 machine (omega arith) (omega arith)

machine-AllEnd : AllEnd machine.usable_memory_region
unfolding region_end
machine-AllEnd = (omega arith, (omega arith, tt))

pmm_init-Freed_example :
    let top : ℕ = max_frame machine.usable_memory_region 16 in
    (k' : Kernel) × (pmm_init machine ≡ some k')
    × (k'.max_frame_idx ≡ top)
    × ((g : ℕ) → g < top → used k' g ≡ not (covered machine.usable_memory_region g))
    × (k'.total_frames ≡ u32 (frames_sum top machine.usable_memory_region))
    × (k'.used_frames ≡ 0)
    × (k'.frame_bitmap ≡ 0x90000)
    × (k'.diag.current_panik_mode ≡ normal)
pmm_init-Freed_example = pmm_init-Freed machine machine-AllEnd

pmm_reserve_memory_region_lem_example :
    (k' : Kernel) × (pmm_reserve_memory_region 0x10000 0x14321 (7 + 8) machine ≡ some k')
    × (k'.total_frames ≡ 16)
    × ((g : ℕ) → used k' g ≡ asked_for 0x10000 0x14321 (7 + 8) machine g || used machine g)
pmm_reserve_memory_region_lem_example =
    pmm_reserve_memory_region_lem 0x10000 0x14321 (7 + 8) machine (omega arith) (omega arith)
      (omega arith)
