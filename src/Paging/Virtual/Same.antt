-- ===== src/Paging/Virtual/Same.antt =====
-- The accesses of `paging_map_page` through the tables, where the identity map has the tables.
use kernel_v.Base.{
  ℕ, zero, suc, ◌+◌, ◌*◌, ◌/◌, ◌%◌, ◌^◌, ◌≤◌, ◌<◌, ◌≡◌, refl, ◌∙◌, arith, some, for_range, lt→ltb,
}
use kernel_v.Kernel.{Kernel}
use kernel_v.Paging.{set_entry, link_table, paging_init}
use kernel_v.Paging.Identity.{paging_init-walk}
use kernel_v.Paging.Data.{written-IsSafe, walk-written, directory-written}
use kernel_v.Paging.Mapping.{IsData, IsData-same}
use kernel_v.Paging.Memory.{load32, store32}
use kernel_v.Paging.Safe.{IsSafe}
use kernel_v.Paging.Virtual.{
  load_mapped, load_virtual, store_mapped, store_virtual, clear_virtual, link_virtual,
}
use kernel_v.Paging.Walk.{walk}

-- The first 4 MB are mapped to themselves, as `paging_init` leaves them.
abbrev pub Identity : Kernel → Type 0
Identity k = (a : ℕ) → a < 2 ^ 22 → walk k a ≡ some (a / 4096 * 4096 + 7)

pub Identity-same :
    (k k' : Kernel) → ((w : ℕ) → w < 2 ^ 32 → walk k' w ≡ walk k w) → Identity k → Identity k'
Identity-same k k' same identity a h = same a (omega (arith, h)) ∙ identity a h

pub paging_init-Identity : (k : Kernel) → Identity (paging_init k)
paging_init-Identity k a h =
    (paging_init-walk a k (omega (arith, h))).2 ∙ rw (lt→ltb a (2 ^ 22) h) refl

page_of : (a : ℕ) → (a / 4096 * 4096 + 7) / 4096 * 4096 + a % 4096 ≡ a
page_of a = omega arith

module _ (a : ℕ) (k : Kernel) (identity : Identity k) (h : a < 2 ^ 22) where
  pub load_identity : load_virtual a k ≡ some (load32 a k)
  unfolding load_virtual load_mapped
  load_identity = rw (identity a h, page_of a) refl

  pub store_identity : (v : ℕ) → store_virtual a v k ≡ some (store32 a v k)
  unfolding store_virtual store_mapped
  store_identity v = rw (identity a h, page_of a) refl

-- A page of the identity map above the low megabyte that is cleared.
module _ (t : ℕ) (high : 256 ≤ t) (low : t < 1024) where
  pub cleared_from : (rounds entry : ℕ) → Kernel → Kernel
  cleared_from rounds entry k = for_range rounds entry (λ e. set_entry (t * 4096) e 0) k

  pub clear_same :
      (rounds entry : ℕ) (k : Kernel)
      → entry + rounds ≤ 1024
      → IsSafe k
      → IsData k t
      → Identity k
      → (clear_virtual rounds (t * 4096) entry k ≡ some (cleared_from rounds entry k))
        × Identity (cleared_from rounds entry k)
  unfolding clear_virtual cleared_from for_range set_entry
  clear_same zero entry k fits s d identity = (refl, identity)
  clear_same (suc rounds) entry k fits s d identity =
      let here : entry < 1024 = omega (arith, fits) in
      let k' : Kernel = store32 (t * 4096 + 4 * entry) 0 k in
      let d' : IsData k' t = IsData-same k k' t (directory-written t entry 0 k s high d here) d in
      let rest =
        clear_same rounds (entry + 1) k' (omega (arith, fits))
          (written-IsSafe t entry 0 k s high d here) d'
          (Identity-same k k' (walk-written t entry 0 k s high d here) identity) in
      (
        rw (store_identity (t * 4096 + 4 * entry) k identity (omega (arith, low, here)) 0) (rest.0),
        rest.1,
      )

  pub link_same :
      (i : ℕ) (k : Kernel)
      → i < 1024
      → IsSafe k
      → IsData k t
      → Identity k
      → link_virtual (t * 4096) i k ≡ some (link_table (t * 4096) i k)
  unfolding link_virtual link_table set_entry cleared_from
  link_same i k h s d identity =
      let c = clear_same 1024 0 k (omega arith) s d identity in
      rw (c.0) (store_identity (0x80000 + 4 * i) _ (c.1) (omega (arith, h)) _)
