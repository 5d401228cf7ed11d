-- ===== src/Boot/Main/Framed.antt =====
-- The frames as `kernel_main` of kernel/main/kernel.c sets them up, and its two trial allocations.
use kernel_v.Base.{
  ℕ, suc, ◌+◌, ◌/◌, ◌^◌, ◌≤◌, ◌<◌, ◌≡◌, ◌∙◌, arith, Bool, true, not, ◌||◌, ltb, ◌==◌, if◌then◌else◌,
  List, u32, inl, inr, [], ◌∷◌,
}
use kernel_v.Boot.Main.{Image, try_frame}
use kernel_v.Kernel.{Kernel, say}
use kernel_v.MemoryMap.{MemoryRegion}
use kernel_v.Panik.{normal}
use kernel_v.Printk.Format.{word}
use kernel_v.Pmm.{max_frame, pmm_alloc_frame}
use kernel_v.Pmm.Alloc.{Searched, pmm_alloc_frame-Searched}
use kernel_v.Pmm.Bitmap.{used}
use kernel_v.Pmm.Freed.{covered}
use kernel_v.Pmm.Region.Adds.{meets}
use kernel_v.Pmm.Reserve.{count_free}
use kernel_v.Pmm.Supply.{
  free_frames, free_frames-Allocated, free_frames-same, count_free_below, count_free_one,
}

-- What the three reservations and the memory map leave out: the low megabyte, the kernel, the
-- bitmap, and the pages of no usable region.
abbrev pub withheld : Image → List MemoryRegion → ℕ → Bool
withheld image regions g =
    ltb g 256
    || (meets image.kernel_start image.kernel_end g
        || (meets 0x90000 (u32 (0x90000 + (max_frame regions 0 / 8 + 1))) g
            || not (covered regions g)))

-- The frames are set up, and `n` of them are left.
pub record Framed (n : ℕ) (k : Kernel) : Type 0 where
  pub at : k.frame_bitmap ≡ 0x90000
  pub few : k.total_frames ≤ 2 ^ 20
  pub small : k.used_frames < 2 ^ 32
  pub mode : k.diag.current_panik_mode ≡ normal
  pub low_used : (g : ℕ) → g < 256 → used k g ≡ true
  pub left : n ≤ free_frames k

pub try_frame-Framed :
    (n : ℕ) (found missing : List ℕ) (k : Kernel)
    → Framed (suc n) k
    → Framed n (try_frame found missing k)
unfolding try_frame
try_frame-Framed n found missing k s = either (pmm_alloc_frame-Searched k)
  where
    either :
        Searched k 1 k.total_frames (pmm_alloc_frame k)
        → Framed n (
            say
              (if (pmm_alloc_frame k).0 == 0 then missing else found)
              (word (pmm_alloc_frame k).0 ∷ [])
              (pmm_alloc_frame k).1)
    either (inl a) = record {
      at = a.kept.frame_bitmap ∙ s.at;
      few = omega (arith, a.kept.total_frames, s.few);
      small = omega (arith, a.counted);
      mode = a.kept.mode ∙ s.mode;
      low_used = λ g h. a.set g ∙ rw (s.low_used g h) (ground arith);
      left = omega (arith, s.left, free_frames-Allocated k (pmm_alloc_frame k) a);
    }
    either (inr e) = record {
      at = e.kept.frame_bitmap ∙ s.at;
      few = omega (arith, e.kept.total_frames, s.few);
      small = omega (arith, e.counted, s.small);
      mode = e.kept.mode ∙ s.mode;
      low_used = λ g h. e.set g ∙ s.low_used g h;
      left = omega (
        arith,
        s.left,
        free_frames-same k (pmm_alloc_frame k).1 s.few e.kept.total_frames (λ g h. e.set g),
      );
    }

-- No more than `j` of the frames that nothing withholds are taken.
abbrev pub Spared : Image → List MemoryRegion → (j : ℕ) → Kernel → Type 0
Spared image regions j k =
    (m : ℕ)
    → m < max_frame regions 0
    → count_free (withheld image regions) m 1 ≤ j + count_free (used k) m 1

pub try_frame-Spared :
    (image : Image) (regions : List MemoryRegion) (j : ℕ) (found missing : List ℕ) (k : Kernel)
    → Spared image regions j k
    → Spared image regions (suc j) (try_frame found missing k)
unfolding try_frame
try_frame-Spared image regions j found missing k spared m h = elim (pmm_alloc_frame-Searched k) [
  | inl a ↦
      let one =
        count_free_one (used k) (used (pmm_alloc_frame k).1) m 1 a.frame (a.in_range.0) (a.free)
          (a.set) in
      omega (arith, spared m h, one)
  | inr e ↦
      let same = count_free_below (used (pmm_alloc_frame k).1) (used k) m 1 (λ g p q. e.set g) in
      omega (arith, spared m h, same)
]
