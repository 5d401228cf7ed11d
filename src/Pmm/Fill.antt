-- ===== src/Pmm/Fill.antt =====
-- The memory that step 3 of `pmm_init` in kernel/memory/pmm.c writes.
use kernel_v.Base.{
  ℕ, zero, suc, ◌+◌, ◌/◌, ◌≡◌, ◌∙◌, arith, ◌&&◌, leb, ltb, if◌then◌else◌, for_range,
}
use kernel_v.Kernel.{Kernel}
use kernel_v.Pmm.{fill_byte, all_used, max_frame}

fill-ram :
    (n i x : ℕ) (k : Kernel)
    → (for_range n i fill_byte k).ram x
      ≡ (if leb (k.frame_bitmap + i) x && ltb x (k.frame_bitmap + i + n) then 0xFF else k.ram x)
unfolding for_range fill_byte
fill-ram zero i x k = ground arith
fill-ram (suc n) i x k = fill-ram n (i + 1) x (fill_byte i k) ∙ ground arith

-- The bytes of the bitmap from 0x90000 to that of the last frame, and no other.
pub all_used-ram :
    (x : ℕ) (k : Kernel)
    → (all_used k).ram x ≡ (
        if leb 0x90000 x
          && ltb x (0x90000 + (max_frame k.usable_memory_region k.max_frame_idx / 8 + 1))
        then 0xFF
        else k.ram x)
unfolding all_used
all_used-ram x k = fill-ram _ 0 x _
