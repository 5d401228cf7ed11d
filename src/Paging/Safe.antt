-- ===== src/Paging/Safe.antt =====
-- What keeps kernel/memory/pmm.c and kernel/memory/paging.c from overwriting each other's data.
use kernel_v.Base.{
  subst, ℕ, ◌+◌, ◌*◌, ◌/◌, ◌%◌, ◌^◌, ◌≤◌, ◌<◌, ◌≡◌, ◌≢◌, ◌⊎◌, refl, sym, ap, ◌∙◌, arith, inl, inr,
  true,
}
use kernel_v.Kernel.{Kernel}
use kernel_v.Kernel.Said.{Said}
use kernel_v.Panik.{Diag, normal}
use kernel_v.Paging.{get_entry, page_directory}
use kernel_v.Paging.Grow.{Guarded}
use kernel_v.Paging.Map.{IsValid, IsValid-same}
use kernel_v.Pmm.Bitmap.{used}

-- Pages in which no byte of the bitmap lies, whatever the number of frames.
abbrev pub OffBitmap : ℕ → Type 0
OffBitmap page = (page < 0x90) ⊎ (0xB0 < page)

-- The frame of the table under a directory entry, and whether there is one.
abbrev pub table_of : Kernel → ℕ → ℕ
table_of k i = get_entry page_directory i k / 4096

abbrev pub IsLinked : Kernel → ℕ → Type 0
IsLinked k i = get_entry page_directory i k % 2 ≡ 1

-- The low megabyte is used, with the directory and the bitmap in it; the tables are pages of their
-- own, used, and none of the bitmap's.
pub record IsSafe (k : Kernel) : Type 0 where
  pub tables : IsValid k
  pub at : k.frame_bitmap ≡ 0x90000
  pub few : k.total_frames ≤ 2 ^ 20
  pub small : k.used_frames < 2 ^ 32
  pub mode : k.diag.current_panik_mode ≡ normal
  pub low_used : (g : ℕ) → g < 256 → used k g ≡ true
  pub table_used : (i : ℕ) → i < 1024 → IsLinked k i → used k (table_of k i) ≡ true
  pub table_off : (i : ℕ) → i < 1024 → IsLinked k i → OffBitmap (table_of k i)

pub IsSafe-Guarded : {k : Kernel} → IsSafe k → Guarded k
IsSafe-Guarded {k} s = record {
  few = s.few;
  directory_used = s.low_used 0x80 (omega arith);
  tables_used = s.table_used;
  bitmap_off_directory = λ x low high e. omega (arith, s.at, s.few, low, high, e);
  bitmap_off_tables = λ x i low high h present e. apart x i low high (s.table_off i h present) e;
}
  where
    apart :
        (x i : ℕ)
        → k.frame_bitmap ≤ x
        → x ≤ k.frame_bitmap + k.total_frames / 8
        → OffBitmap (table_of k i)
        → x / 4096 ≢ table_of k i
    apart x i low high (inl below) e = omega (arith, s.at, s.few, low, high, e, below)
    apart x i low high (inr above) e = omega (arith, s.at, s.few, low, high, e, above)

-- The fields that the conditions read stay, and what is used for the tables and in the low megabyte
-- stays used.
pub record Spares (k k' : Kernel) : Type 0 where
  pub at : k'.frame_bitmap ≡ k.frame_bitmap
  pub total : k'.total_frames ≡ k.total_frames
  pub cr3 : k'.cr3 ≡ k.cr3
  pub mode : k'.diag.current_panik_mode ≡ k.diag.current_panik_mode
  pub small : k'.used_frames < 2 ^ 32
  pub directory : (i : ℕ) → i < 1024 → get_entry page_directory i k' ≡ get_entry page_directory i k
  pub low_used : (g : ℕ) → g < 256 → used k' g ≡ true
  pub table_used : (i : ℕ) → i < 1024 → IsLinked k i → used k' (table_of k i) ≡ true

pub Spares-IsSafe : {k k' : Kernel} → IsSafe k → Spares k k' → IsSafe k'
Spares-IsSafe {k} {k'} s p = record {
  tables = IsValid-same p.cr3 p.directory s.tables;
  at = p.at ∙ s.at;
  few = omega (arith, p.total, s.few);
  small = p.small;
  mode = p.mode ∙ s.mode;
  low_used = p.low_used;
  table_used = λ i h present. rw (p.directory i h) (p.table_used i h (was i h present));
  table_off = λ i h present. rw (p.directory i h) (s.table_off i h (was i h present));
}
  where
    was : (i : ℕ) → i < 1024 → IsLinked k' i → IsLinked k i
    was i h present = ap (λ (e : ℕ). e % 2) (sym (p.directory i h)) ∙ present

-- Where memory changes in the bitmap alone, the directory stays.
pub directory_off_bitmap :
    (i : ℕ) (k k' : Kernel)
    → i < 1024
    → ((x : ℕ) → x < 0x90000 → k'.ram x ≡ k.ram x)
    → get_entry page_directory i k' ≡ get_entry page_directory i k
directory_off_bitmap i k k' h same =
    let x : ℕ = page_directory + 4 * i in
    rw
      (
        same x (omega arith),
        same (x + 1) (omega arith),
        same (x + 2) (omega arith),
        same (x + 3) (omega arith),
      )
      refl

-- Where memory changes off the bitmap alone, the same frames are used.
pub used_off_bitmap :
    (g : ℕ) (k k' : Kernel)
    → k.frame_bitmap ≡ 0x90000
    → k'.frame_bitmap ≡ k.frame_bitmap
    → g < 2 ^ 20
    → ((x : ℕ) → 0x90000 ≤ x → x < 0xB0000 → k'.ram x ≡ k.ram x)
    → used k' g ≡ used k g
used_off_bitmap g k k' at same_at h same =
    rw same_at (rw (same (k.frame_bitmap + g / 8) (omega (arith, at)) (omega (arith, at))) refl)

-- The messages do not matter.
pub diag-IsSafe :
    (d : Diag) (k : Kernel)
    → d.current_panik_mode ≡ normal
    → IsSafe k
    → IsSafe (record k { diag = d })
diag-IsSafe d k normal_mode s = record {
  tables = record {
    loaded = s.tables.loaded;
    off_directory = s.tables.off_directory;
    apart = s.tables.apart;
  };
  at = s.at;
  few = s.few;
  small = s.small;
  mode = normal_mode;
  low_used = s.low_used;
  table_used = s.table_used;
  table_off = s.table_off;
}

pub Said-IsSafe : {k k' : Kernel} → Said k k' → IsSafe k → IsSafe k'
Said-IsSafe {k} {k'} said s =
    subst IsSafe (sym said.kept) (diag-IsSafe k'.diag k (said.mode ∙ s.mode) s)
