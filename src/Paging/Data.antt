-- ===== src/Paging/Data.antt =====
-- The program's stores to a mapped frame beside the tables of kernel/memory/paging.c.
use kernel_v.Base.{ℕ, ◌+◌, ◌*◌, ◌/◌, ◌%◌, ◌^◌, ◌≤◌, ◌<◌, ◌≡◌, ◌≢◌, ◌⊎◌, ◌∙◌, arith, inr}
use kernel_v.Kernel.{Kernel}
use kernel_v.Paging.{set_entry, get_entry, page_directory}
use kernel_v.Paging.Map.{pde, walk-same, directory-set_entry}
use kernel_v.Paging.Mapping.{IsData, IsData-same, set_entry-IsSafe, used-set_entry, total-set_entry}
use kernel_v.Paging.Memory.{store32, cr3-store32, load32-store32_ne}
use kernel_v.Paging.Safe.{IsSafe}
use kernel_v.Paging.Walk.{walk}
use kernel_v.Pmm.Supply.{free_frames, free_frames-same}

-- A word of a page in which neither the directory nor a table stands.
module _ (f j value : ℕ) (k : Kernel) (loaded : k.cr3 ≡ page_directory) (ne : f ≢ 0x80)
    (d : IsData k f) (hj : j < 1024) where
  abbrev stored : Kernel
  stored = store32 (f * 4096 + 4 * j) value k

  pub loaded-stored : stored.cr3 ≡ page_directory
  loaded-stored = cr3-store32 (f * 4096 + 4 * j) value k ∙ loaded

  pub directory-stored :
      (i : ℕ) → i < 1024 → get_entry page_directory i stored ≡ get_entry page_directory i k
  unfolding set_entry
  directory-stored i h = directory-set_entry f j value i k h hj ne

  pub IsData-stored : IsData stored f
  IsData-stored = IsData-same k stored f directory-stored d

  pub walk-stored : (w : ℕ) → w < 2 ^ 32 → walk stored w ≡ walk k w
  walk-stored w h =
      walk-same k stored w loaded loaded-stored (directory-stored (w / 2 ^ 22) (omega arith))
        (λ present.
          load32-store32_ne (pde k w / 4096 * 4096 + 4 * (w / 4096 % 1024)) (f * 4096 + 4 * j) value
            k (apart (d (w / 2 ^ 22) (omega arith) present)))
    where
      apart :
          pde k w / 4096 ≢ f
          → (pde k w / 4096 * 4096 + 4 * (w / 4096 % 1024) + 4 ≤ f * 4096 + 4 * j)
            ⊎ (f * 4096 + 4 * j + 4 ≤ pde k w / 4096 * 4096 + 4 * (w / 4096 % 1024))
      apart ne = ground arith

-- A word of a frame above the low megabyte in which no table stands.
module _ (f j value : ℕ) (k : Kernel) (s : IsSafe k) (high : 256 ≤ f) (d : IsData k f)
    (hj : j < 1024) where
  abbrev written : Kernel
  written = store32 (f * 4096 + 4 * j) value k

  pub written-IsSafe : IsSafe written
  unfolding set_entry
  written-IsSafe =
      set_entry-IsSafe f j value k hj s (inr (omega (arith, high))) (omega (arith, high))

  pub walk-written : (w : ℕ) → w < 2 ^ 32 → walk written w ≡ walk k w
  walk-written = walk-stored f j value k s.tables.loaded (omega (arith, high)) d hj

  pub left-written : free_frames written ≡ free_frames k
  unfolding set_entry
  left-written =
      free_frames-same k written s.few (total-set_entry f j value k hj)
        (used-set_entry f j value k hj s (inr (omega (arith, high))))

  pub directory-written :
      (i : ℕ) → i < 1024 → get_entry page_directory i written ≡ get_entry page_directory i k
  directory-written = directory-stored f j value k s.tables.loaded (omega (arith, high)) d hj

  pub total-written : written.total_frames ≡ k.total_frames
  unfolding set_entry
  total-written = total-set_entry f j value k hj
