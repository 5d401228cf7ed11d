-- ===== src/Pmm/Region/Adds.antt =====
-- `pmm_reserve_memory_region` of kernel/memory/pmm.c: which frames it marks.
use kernel_v.Base.{
  ℕ, ◌+◌, ◌-◌, ◌/◌, ◌^◌, ◌<◌, ◌≡◌, refl, ◌∙◌, arith, Bool, true, false, ◌&&◌, ◌||◌, List, [], ◌∷◌,
  some, u32, leb, ltb, ◌==◌, codes,
}
use kernel_v.Kernel.{Kernel, say}
use kernel_v.Paging.{page_directory, first_page_table}
use kernel_v.Pmm.Bitmap.{used}
use kernel_v.Pmm.Reserve.{Kept, Kept-refl, Kept-trans, pmm_set_frame_bitmap-Reserved}
use kernel_v.Printk.Format.{Arg, word}
use kernel_v.Pmm.Region.{
  reserved_type_kernel, reserved_type_bitmap, reserved_type_page_table, reserve_if, asks_low, asks,
  bitmap_bytes, bitmap_end, page_dir_end, page_table_end, reserve_low, reserve_kernel,
  reserve_bitmap, reserve_directory, reserve_table, pmm_reserve_memory_region,
}

-- The frames that an address range meets, its end rounded up.
abbrev pub meets : (start end : ℕ) → ℕ → Bool
meets start end g =
    leb (start / 4096) g && ltb g (start / 4096 + (u32 (end + 4095) / 4096 - start / 4096))

-- From `k` to `k'` the frames of `s` became used.
pub record Adds (s : ℕ → Bool) (k k' : Kernel) : Type 0 where
  pub set : (g : ℕ) → used k' g ≡ s g || used k g
  pub small : k'.used_frames < 2 ^ 32
  pub kept : Kept k k'

reserve_if-Adds :
    (asked : Bool) (start end : ℕ) (fmt : List ℕ) (args : List Arg) (k : Kernel)
    → start < 2 ^ 32
    → k.used_frames < 2 ^ 32
    → (k' : Kernel) × (reserve_if asked start end fmt args k ≡ some k')
      × Adds (λ g. asked && meets start end g) k k'
unfolding reserve_if
reserve_if-Adds true start end fmt args k h small =
    let r = pmm_set_frame_bitmap-Reserved start end k h small in
    (
      say fmt args r.0,
      rw (r.1) refl,
      record {
        set = r.2.set;
        small = omega (arith, r.2.counted);
        kept = record {
          frame_bitmap = r.2.kept.frame_bitmap;
          total_frames = r.2.kept.total_frames;
          max_frame_idx = r.2.kept.max_frame_idx;
          cr3 = r.2.kept.cr3;
          mode = r.2.kept.mode;
          outside = r.2.kept.outside;
        };
      },
    )
reserve_if-Adds false start end fmt args k h small =
    (k, refl, record { set = λ g. refl; small = small; kept = Kept-refl k })

-- What the flags ask for: the first 256 frames for any of the three lowest, the kernel's, the
-- bitmap's, and the two pages of the tables.
abbrev pub asked_for : (kernel_start kernel_end reserved_type : ℕ) → Kernel → ℕ → Bool
asked_for kernel_start kernel_end t k g =
    (asks_low t && ltb g 256)
    || ((asks reserved_type_kernel t && meets kernel_start kernel_end g)
        || ((asks reserved_type_bitmap t && meets k.frame_bitmap (bitmap_end k) g)
            || (asks reserved_type_page_table t && ((g == 0x80) || (g == 0x81)))))

gather :
    (l m b p x y u : Bool)
    → (p && y) || ((p && x) || (b || (m || (l || u)))) ≡ (l || (m || (b || (p && (x || y))))) || u
gather l m b p x y u = ground arith

-- The five stages together.
chain :
    (kernel_start kernel_end t : ℕ) (k : Kernel) (g : ℕ) (k₁ k₂ k₃ k₄ k₅ : Kernel)
    → Adds (λ g. asks_low t && meets 0x0 0x100000 g) k k₁
    → Adds (λ g. asks reserved_type_kernel t && meets kernel_start kernel_end g) k₁ k₂
    → Adds (λ g. asks reserved_type_bitmap t && meets k₂.frame_bitmap (bitmap_end k₂) g) k₂ k₃
    → Adds (λ g. asks reserved_type_page_table t && meets page_directory page_dir_end g) k₃ k₄
    → Adds (λ g. asks reserved_type_page_table t && meets first_page_table page_table_end g) k₄ k₅
    → used k₅ g ≡ asked_for kernel_start kernel_end t k g || used k g
chain kernel_start kernel_end t k g k₁ k₂ k₃ k₄ k₅ a₁ a₂ a₃ a₄ a₅ =
    let low : meets 0x0 0x100000 g ≡ ltb g 256 = ground arith in
    let dir : meets page_directory page_dir_end g ≡ (g == 0x80) = ground arith in
    let table : meets first_page_table page_table_end g ≡ (g == 0x81) = ground arith in
    let at : k₂.frame_bitmap ≡ k.frame_bitmap = a₂.kept.frame_bitmap ∙ a₁.kept.frame_bitmap in
    let most : k₂.max_frame_idx ≡ k.max_frame_idx = a₂.kept.max_frame_idx ∙ a₁.kept.max_frame_idx in
    a₅.set g
    ∙ rw (a₄.set g, a₃.set g, a₂.set g, a₁.set g, low, dir, table, at, most)
        (gather (asks_low t && ltb g 256)
          (asks reserved_type_kernel t && meets kernel_start kernel_end g)
          (asks reserved_type_bitmap t && meets k.frame_bitmap (bitmap_end k) g)
          (asks reserved_type_page_table t) (g == 0x80) (g == 0x81) (used k g))

-- The call as a whole, with what it keeps.
pub pmm_reserve_memory_region-Adds :
    (kernel_start kernel_end t : ℕ) (k : Kernel)
    → kernel_start < 2 ^ 32
    → k.frame_bitmap < 2 ^ 32
    → k.used_frames < 2 ^ 32
    → (k' : Kernel) × (pmm_reserve_memory_region kernel_start kernel_end t k ≡ some k')
      × Adds (asked_for kernel_start kernel_end t k) k k'
unfolding pmm_reserve_memory_region reserve_low reserve_kernel reserve_bitmap reserve_directory
    reserve_table
pmm_reserve_memory_region-Adds kernel_start kernel_end t k hs hb small =
    let low =
      reserve_if-Adds (asks_low t) 0x0 0x100000 (codes "[PMM] Reserved kernel range: 0x%u - 0x%u\n")
        (word 0 ∷ word 100000 ∷ []) k (omega arith) small in
    let kernel =
      reserve_if-Adds (asks reserved_type_kernel t) kernel_start kernel_end
        (codes "[PMM] Reserved kernel range: 0x%u - 0x%u\n")
        (word kernel_start ∷ word kernel_end ∷ []) low.0 hs low.2.small in
    let k₂ : Kernel = kernel.0 in
    let bitmap =
      reserve_if-Adds (asks reserved_type_bitmap t) k₂.frame_bitmap (bitmap_end k₂)
        (codes "[PMM] Reserved bitmap: 0x%u - 0x%u (%u bytes)\n")
        (word k₂.frame_bitmap ∷ word (bitmap_end k₂) ∷ word (bitmap_bytes k₂) ∷ []) k₂
        (omega (arith, low.2.kept.frame_bitmap, kernel.2.kept.frame_bitmap)) kernel.2.small in
    let directory =
      reserve_if-Adds (asks reserved_type_page_table t) page_directory page_dir_end
        (codes "[PMM] Page Directory: 0x%u - 0x%u (%u bytes)\n")
        (word page_directory ∷ word page_dir_end ∷ word (page_dir_end - page_directory) ∷ [])
        bitmap.0 (omega arith) bitmap.2.small in
    let table =
      reserve_if-Adds (asks reserved_type_page_table t) first_page_table page_table_end
        (codes "[PMM] Page Table: 0x%u - 0x%u (%u bytes)\n")
        (word first_page_table
          ∷ word page_table_end
          ∷ word (page_table_end - first_page_table)
          ∷ [])
        directory.0 (omega arith) directory.2.small in
    let kept = Kept-trans low.2.kept (
      Kept-trans kernel.2.kept
        (Kept-trans bitmap.2.kept (Kept-trans directory.2.kept table.2.kept))) in
    (
      say (codes "[PMM] Total reserved frames: %u\n") (word (table.0).used_frames ∷ []) (
          say (codes "[PMM] Total usable frames: %u\n") (word (table.0).total_frames ∷ []) table.0),
      rw (low.1) (rw (kernel.1) (rw (bitmap.1) (rw (directory.1) (rw (table.1) refl)))),
      record {
        set = λ g.
            chain kernel_start kernel_end t k g low.0 k₂ bitmap.0 directory.0 table.0 low.2 kernel.2
              bitmap.2 directory.2 table.2;
        small = table.2.small;
        kept = record {
          frame_bitmap = kept.frame_bitmap;
          total_frames = kept.total_frames;
          max_frame_idx = kept.max_frame_idx;
          cr3 = kept.cr3;
          mode = kept.mode;
          outside = kept.outside;
        };
      },
    )

-- With the kernel's start, the bitmap's address and the count of used frames in 32 bits, the call
-- ends, and the used frames are then those from before and those of the regions that the flags ask
-- for: the first 256 for any of the three lowest, the kernel's, the bitmap's, the page tables'.
pub pmm_reserve_memory_region_lem :
    (kernel_start kernel_end t : ℕ) (k : Kernel)
    → kernel_start < 2 ^ 32
    → k.frame_bitmap < 2 ^ 32
    → k.used_frames < 2 ^ 32
    → (k' : Kernel) × (pmm_reserve_memory_region kernel_start kernel_end t k ≡ some k')
      × (k'.total_frames ≡ k.total_frames)
      × ((g : ℕ) → used k' g ≡ asked_for kernel_start kernel_end t k g || used k g)
pmm_reserve_memory_region_lem kernel_start kernel_end t k hs hb small =
    let r = pmm_reserve_memory_region-Adds kernel_start kernel_end t k hs hb small in
    (r.0, r.1, r.2.kept.total_frames, r.2.set)
