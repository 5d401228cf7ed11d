-- ===== src/Paging/Total.antt =====
-- Every call of `paging_map_page` of kernel/memory/paging.c, whichever branch it takes.
use kernel_v.Base.{
  ℕ, ◌+◌, ◌*◌, ◌/◌, ◌%◌, ◌^◌, ◌<◌, ◌≡◌, ◌≢◌, ◌⊎◌, ap, arith, ◌==◌, inl, inr, Bool-cases, false,
  bit_and, ==_iff,
}
use kernel_v.Base.Bits.{bit_and_low}
use kernel_v.Kernel.{Kernel}
use kernel_v.Panik.{Diag, returns, halts}
use kernel_v.Paging.{map_entry, page_directory, paging_map_page}
use kernel_v.Paging.Exhausted.{paging_map_page-null}
use kernel_v.Paging.Growth.New.{map_new}
use kernel_v.Paging.Map.{pde}
use kernel_v.Paging.Mapping.{Maps, map_entry-Maps}
use kernel_v.Paging.Memory.{load32-lt}
use kernel_v.Paging.Safe.{IsSafe}
use kernel_v.Pmm.{pmm_alloc_frame}
use kernel_v.Pmm.Reserve.{page_mask_lem}

map_old :
    (v p f : ℕ) (k : Kernel)
    → IsSafe k
    → v < 2 ^ 32
    → p < 2 ^ 32
    → pde k v % 2 ≡ 1
    → (k' : Kernel) × (paging_map_page v p f k ≡ returns k') × Maps v p f k k'
unfolding paging_map_page
map_old v p f k s hv hp present =
    let set : (bit_and (pde k v) 1 == 0) ≡ false = ground (arith, bit_and_low 1 (pde k v)) in
    (
      map_entry (pde k v / 4096 * 4096) v p f k,
      rw set (
          ap (λ (t : ℕ). returns (map_entry t v p f k))
            (page_mask_lem (pde k v) (load32-lt (page_directory + 4 * (v / 2 ^ 22)) k))),
      map_entry-Maps v p f k s hv hp present,
    )

-- How a call ends.
pub record Stopped (k k' : Kernel) : Type 0 where
  pub ram : k'.ram ≡ k.ram
  pub interrupts : k'.diag.interrupts ≡ false
  pub panik_called : k'.diag.panik_state.panik_called ≡ 1

-- The messages do not matter.
pub Stopped-diag : (d : Diag) {k k' : Kernel} → Stopped (record k { diag = d }) k' → Stopped k k'
Stopped-diag d s = record { ram = s.ram; interrupts = s.interrupts; panik_called = s.panik_called }

-- Each branch under its condition.
pub paging_map_page_cases :
    (v p f : ℕ) (k : Kernel)
    → IsSafe k
    → v < 2 ^ 32
    → p < 2 ^ 32
    → ((pde k v % 2 ≡ 1) ⊎ ((pmm_alloc_frame k).0 ≢ 0)
        → (k' : Kernel) × (paging_map_page v p f k ≡ returns k') × Maps v p f k k')
      × ((pde k v % 2 ≡ 0) × ((pmm_alloc_frame k).0 ≡ 0)
          → (k' : Kernel) × (paging_map_page v p f k ≡ halts k') × Stopped k k')
paging_map_page_cases v p f k s hv hp = (goes, stops)
  where
    goes :
        (pde k v % 2 ≡ 1) ⊎ ((pmm_alloc_frame k).0 ≢ 0)
        → (k' : Kernel) × (paging_map_page v p f k ≡ returns k') × Maps v p f k k'
    goes (inl present) = map_old v p f k s hv hp present
    goes (inr some_frame) = elim (Bool-cases (pde k v % 2 == 0)) [
      | inl even ↦ map_new v p f k s hv hp ((==_iff _ 0).0 even) some_frame
      | inr odd ↦ map_old v p f k s hv hp (ground arith)
    ]

    stops :
        (pde k v % 2 ≡ 0) × ((pmm_alloc_frame k).0 ≡ 0)
        → (k' : Kernel) × (paging_map_page v p f k ≡ halts k') × Stopped k k'
    stops (absent, null) =
        let e = paging_map_page-null v p f k absent s.few null s.mode in
        (e.0, e.1, record { ram = e.2; interrupts = e.3; panik_called = e.4 })

-- From a state with the low megabyte used, and the linked tables pages of their own, used and off the
-- bitmap, for addresses of 32 bits: either the table is there already or a frame is left, and the call
-- returns with the page of `v` mapped to `p` with the flags, and every other page as before; the
-- conditions hold again, no used frame is given up, and of the used pages none is written but the
-- directory, the tables and the bitmap. Or both fail, and the machine halts after a panic with memory
-- as it was.
pub paging_map_page_lem :
    (v p f : ℕ) (k : Kernel)
    → IsSafe k
    → v < 2 ^ 32
    → p < 2 ^ 32
    → (((pde k v % 2 ≡ 1) ⊎ ((pmm_alloc_frame k).0 ≢ 0))
        × ((k' : Kernel) × (paging_map_page v p f k ≡ returns k') × Maps v p f k k'))
      ⊎ ((pde k v % 2 ≡ 0)
          × ((pmm_alloc_frame k).0 ≡ 0)
          × ((k' : Kernel) × (paging_map_page v p f k ≡ halts k') × Stopped k k'))
paging_map_page_lem v p f k s hv hp =
    let cases = paging_map_page_cases v p f k s hv hp in
    elim (Bool-cases (pde k v % 2 == 0)) [
      | inr odd ↦ let there : pde k v % 2 ≡ 1 = ground arith in inl (inl there, cases.0 (inl there))
      | inl even ↦ elim (Bool-cases ((pmm_alloc_frame k).0 == 0)) [
        | inr some_frame ↦
            let ne : (pmm_alloc_frame k).0 ≢ 0 = ground arith in inl (inr ne, cases.0 (inr ne))
        | inl null ↦
            let absent = (==_iff _ 0).0 even in
            let none_left = (==_iff _ 0).0 null in
            inr (absent, none_left, cases.1 (absent, none_left))
      ]
    ]
