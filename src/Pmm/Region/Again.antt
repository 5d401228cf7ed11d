-- ===== src/Pmm/Region/Again.antt =====
-- `pmm_reserve_memory_region` of kernel/memory/pmm.c for the page tables, whose pages are used already.
use kernel_v.Base.{arith, ◌-◌, ◌∷◌, [], codes, ℕ, ◌≡◌, refl, true, some}
use kernel_v.Kernel.{Kernel, say}
use kernel_v.Kernel.Said.{Said, Said-refl, say-Said}
use kernel_v.Pmm.Bitmap.{used}
use kernel_v.Paging.{page_directory, first_page_table}
use kernel_v.Pmm.Region.{
  page_dir_end, page_table_end, pmm_reserve_memory_region, reserve_if, reserve_low, reserve_kernel,
  reserve_bitmap, reserve_directory, reserve_table, reserved_type_page_table,
}
use kernel_v.Pmm.Reserve.{pmm_set_frame_bitmap-used}
use kernel_v.Printk.Format.{word}

-- Pages `0x80` and `0x81` as the code names them.
abbrev directory_said : Kernel → Kernel
directory_said k =
    say (codes "[PMM] Page Directory: 0x%u - 0x%u (%u bytes)\n")
      (word page_directory ∷ word page_dir_end ∷ word (page_dir_end - page_directory) ∷ []) k

abbrev table_said : Kernel → Kernel
table_said k =
    say (codes "[PMM] Page Table: 0x%u - 0x%u (%u bytes)\n")
      (word first_page_table ∷ word page_table_end ∷ word (page_table_end - first_page_table) ∷ [])
      k

reserve_directory-used :
    (k : Kernel) → used k 0x80 ≡ true → reserve_directory 32 k ≡ some (directory_said k)
unfolding reserve_directory reserve_if
reserve_directory-used k taken = rw (pmm_set_frame_bitmap-used 0x80 k (omega arith) taken) refl

reserve_table-used : (k : Kernel) → used k 0x81 ≡ true → reserve_table 32 k ≡ some (table_said k)
unfolding reserve_table reserve_if
reserve_table-used k taken = rw (pmm_set_frame_bitmap-used 0x81 k (omega arith) taken) refl

-- Reserving the tables' pages, where both are used, is nothing but messages.
pub reserve_page_table-Said :
    (kernel_start kernel_end : ℕ) (k : Kernel)
    → used k 0x80 ≡ true
    → used k 0x81 ≡ true
    → (k' : Kernel) × (pmm_reserve_memory_region kernel_start kernel_end reserved_type_page_table k
        ≡ some k')
      × Said k k'
unfolding pmm_reserve_memory_region reserve_low reserve_kernel reserve_bitmap reserve_if
reserve_page_table-Said kernel_start kernel_end k directory table =
    let k₁ : Kernel = table_said (directory_said k) in
    let k₂ : Kernel =
      say (codes "[PMM] Total usable frames: %u\n") (word k₁.total_frames ∷ []) k₁ in
    (
      say (codes "[PMM] Total reserved frames: %u\n") (word k₂.used_frames ∷ []) k₂,
      rw (reserve_directory-used k directory, reserve_table-used (directory_said k) table) refl,
      say-Said _ _ (say-Said _ _ (say-Said _ _ (say-Said _ _ (Said-refl k)))),
    )
