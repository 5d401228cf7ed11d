-- ===== src/Paging/Virtual/Demand.antt =====
-- An allocation and a mapping of kernel/memory, one after the other, with the mapping made through the
-- tables.
use kernel_v.Base.{ℕ, ◌%◌, ◌^◌, ◌<◌, ◌≡◌, ◌≢◌, sym, ap, ◌∙◌, arith, some}
use kernel_v.Kernel.{Kernel}
use kernel_v.Panik.{Diag, normal}
use kernel_v.Paging.{paging_map_page}
use kernel_v.Paging.Demand.{pde-Allocated, walk-Allocated, TablesBelow-Allocated}
use kernel_v.Paging.Frames.{pmm_alloc_frame-IsSafe}
use kernel_v.Paging.Map.{pde}
use kernel_v.Paging.Mapping.{TablesBelow}
use kernel_v.Paging.Room.{Rooms, Rooms-Room, alloc_low}
use kernel_v.Paging.Safe.{IsSafe, diag-IsSafe}
use kernel_v.Paging.Virtual.{paging_map_page_virtual}
use kernel_v.Paging.Virtual.Call.{paging_map_page_virtual_lem}
use kernel_v.Paging.Virtual.Same.{Identity, Identity-same}
use kernel_v.Pmm.{pmm_alloc_frame}
use kernel_v.Pmm.Alloc.{Allocated, pmm_alloc_frame-ne_null}

-- What the two calls begin with: the identity map, the tables in it, and room in it for a table of `v`
-- and a page, if there is no table yet.
pub record Reaches (v : ℕ) (k : Kernel) : Type 0 where
  pub safe : IsSafe k
  pub identity : Identity k
  pub below : TablesBelow 1024 k
  pub rooms : pde k v % 2 ≡ 0 → Rooms 1024 k

pub Reaches-diag :
    (v : ℕ) (d : Diag) (k : Kernel)
    → d.current_panik_mode ≡ normal
    → Reaches v k
    → Reaches v (record k { diag = d })
Reaches-diag v d k mode e = record {
  safe = diag-IsSafe d k mode e.safe;
  identity = e.identity;
  below = e.below;
  rooms = e.rooms;
}

-- Whatever is printed between the calls.
pub demand_virtual :
    (v : ℕ) (k : Kernel) (d : Diag)
    → Reaches v k
    → d.current_panik_mode ≡ normal
    → v < 2 ^ 32
    → (pmm_alloc_frame k).0 ≢ 0
    → let k₁ = record (pmm_alloc_frame k).1 { diag = d } in
      paging_map_page_virtual v (pmm_alloc_frame k).0 3 k₁
      ≡ some (paging_map_page v (pmm_alloc_frame k).0 3 k₁)
demand_virtual v k d e mode hv ne =
    let s = e.safe in
    let a : Allocated k 1 k.total_frames (pmm_alloc_frame k) = pmm_alloc_frame-ne_null k s.few ne in
    let k₁ : Kernel = record (pmm_alloc_frame k).1 { diag = d } in
    let safe : IsSafe k₁ = diag-IsSafe d (pmm_alloc_frame k).1 mode (pmm_alloc_frame-IsSafe k s) in
    paging_map_page_virtual_lem v (pmm_alloc_frame k).0 3 k₁ safe
      (Identity-same k k₁ (walk-Allocated s a) e.identity) (TablesBelow-Allocated s a 1024 e.below)
      (λ even. alloc_low 1024 k₁ (omega arith) safe (
        Rooms-Room s a 1024
          (e.rooms (ap (λ (t : ℕ). t % 2) (sym (pde-Allocated s a v hv)) ∙ even))))
      hv (omega (arith, a.address))
