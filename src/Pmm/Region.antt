-- ===== src/Pmm/Region.antt =====
-- `pmm_reserve_memory_region` of kernel/memory/pmm.c.
pub mod Adds
pub mod Again
use kernel_v.Base.{
  ℕ, ◌+◌, ◌-◌, ◌*◌, ◌/◌, ◌^◌, ◌<◌, ◌≡◌, refl, ◌∙◌, arith, Bool, true, false, not, ◌&&◌, ◌||◌, List,
  [], ◌∷◌, Option, some, ◌>>=◌, bit_and, bit_or, u32, leb, ltb, ◌==◌, if◌then◌else◌, codes,
}
use kernel_v.Kernel.{Kernel, say}
use kernel_v.Paging.{page_directory, first_page_table, page_entries}
use kernel_v.Pmm.{pmm_set_frame_bitmap}
use kernel_v.Pmm.Bitmap.{used}
use kernel_v.Pmm.Reserve.{Kept, Kept-refl, Kept-trans, pmm_set_frame_bitmap-Reserved}
use kernel_v.Printk.Format.{Arg, word}

abbrev pub reserved_type_init : ℕ
reserved_type_init = 7

abbrev pub reserved_type_bios : ℕ
reserved_type_bios = 1

abbrev pub reserved_type_ivt : ℕ
reserved_type_ivt = 2

abbrev pub reserved_type_vga : ℕ
reserved_type_vga = 4

abbrev pub reserved_type_kernel : ℕ
reserved_type_kernel = 8

abbrev pub reserved_type_bitmap : ℕ
reserved_type_bitmap = 16

abbrev pub reserved_type_page_table : ℕ
reserved_type_page_table = 32

-- `if (asked) { pmm_set_frame_bitmap(start, end); printk(fmt, args); }`
reserve_if : Bool → (start end : ℕ) → List ℕ → List Arg → Kernel → Option Kernel
reserve_if asked start end fmt args k =
    if asked then (pmm_set_frame_bitmap start end k >>= λ k'. some (say fmt args k')) else some k

-- `&` binds tighter than `|` in the code's first test.
abbrev pub asks_low : ℕ → Bool
asks_low t = not (
    bit_or
      (bit_or (bit_or (bit_and t reserved_type_init) (bit_and t reserved_type_bios))
        (bit_and t reserved_type_ivt))
      (bit_and t reserved_type_vga)
    == 0)

abbrev pub asks : ℕ → ℕ → Bool
asks flag t = not (bit_and t flag == 0)

abbrev pub bitmap_bytes : Kernel → ℕ
bitmap_bytes k = k.max_frame_idx / 8 + 1

abbrev pub bitmap_end : Kernel → ℕ
bitmap_end k = u32 (k.frame_bitmap + bitmap_bytes k)

abbrev pub page_dir_end : ℕ
page_dir_end = page_directory + page_entries * 4

abbrev pub page_table_end : ℕ
page_table_end = first_page_table + page_entries * 4

reserve_low : ℕ → Kernel → Option Kernel
reserve_low t k =
    reserve_if (asks_low t) 0x0 0x100000 (codes "[PMM] Reserved kernel range: 0x%u - 0x%u\n")
      (word 0 ∷ word 100000 ∷ []) k

-- `kernel_start` and `kernel_end` are the addresses that the linker gives.
reserve_kernel : (kernel_start kernel_end reserved_type : ℕ) → Kernel → Option Kernel
reserve_kernel kernel_start kernel_end t k =
    reserve_if (asks reserved_type_kernel t) kernel_start kernel_end
      (codes "[PMM] Reserved kernel range: 0x%u - 0x%u\n")
      (word kernel_start ∷ word kernel_end ∷ []) k

reserve_bitmap : ℕ → Kernel → Option Kernel
reserve_bitmap t k =
    reserve_if (asks reserved_type_bitmap t) k.frame_bitmap (bitmap_end k)
      (codes "[PMM] Reserved bitmap: 0x%u - 0x%u (%u bytes)\n")
      (word k.frame_bitmap ∷ word (bitmap_end k) ∷ word (bitmap_bytes k) ∷ []) k

reserve_directory : ℕ → Kernel → Option Kernel
reserve_directory t k =
    reserve_if (asks reserved_type_page_table t) page_directory page_dir_end
      (codes "[PMM] Page Directory: 0x%u - 0x%u (%u bytes)\n")
      (word page_directory ∷ word page_dir_end ∷ word (page_dir_end - page_directory) ∷ []) k

reserve_table : ℕ → Kernel → Option Kernel
reserve_table t k =
    reserve_if (asks reserved_type_page_table t) first_page_table page_table_end
      (codes "[PMM] Page Table: 0x%u - 0x%u (%u bytes)\n")
      (word first_page_table ∷ word page_table_end ∷ word (page_table_end - first_page_table) ∷ [])
      k

pub pmm_reserve_memory_region : (kernel_start kernel_end reserved_type : ℕ) → Kernel → Option Kernel
pmm_reserve_memory_region kernel_start kernel_end t k = do
  k₁ ← reserve_low t k
  k₂ ← reserve_kernel kernel_start kernel_end t k₁
  k₃ ← reserve_bitmap t k₂
  k₄ ← reserve_directory t k₃
  k₅ ← reserve_table t k₄
  let k₆ = say (codes "[PMM] Total usable frames: %u\n") (word k₅.total_frames ∷ []) k₅
  some (say (codes "[PMM] Total reserved frames: %u\n") (word k₆.used_frames ∷ []) k₆)
