-- ===== src/Paging/Tests.antt =====
-- kernel/memory/paging.c on concrete machines.
use kernel_v.Base.{
  refl, ap, sym, subst, ◌∙◌, ℕ, ◌+◌, ◌*◌, ◌/◌, ◌%◌, ◌^◌, ◌<◌, ◌≤◌, ◌≡◌, ◌≢◌, ◌⊎◌, ap, ◌∙◌, arith,
  ltb, some, none, if◌then◌else◌, inl, inr, Bool-cases, ltb→lt, ltb→le, true, false, [], codes,
}
use kernel_v.Base.Bits.{bit}
use kernel_v.Kernel.{Kernel, say}
use kernel_v.Panik.{returns, halts}
use kernel_v.Paging.{paging_init, paging_map_page, page_directory}
use kernel_v.Paging.Identity.{paging_init-walk}
use kernel_v.Paging.Low.{IsLow, paging_init-IsLow, Steps-IsLow}
use kernel_v.Paging.Map.{pde}
use kernel_v.Paging.Accounts.{Steps-account}
use kernel_v.Paging.Demand.{no_table-Allocated}
use kernel_v.Paging.Room.{frame_high}
use kernel_v.Pmm.Account.{account}
use kernel_v.Paging.Mapping.{IsData, Maps}
use kernel_v.Paging.Start.{directory-paging_init}
use kernel_v.Paging.Safe.{IsSafe, IsLinked, table_of}
use kernel_v.Paging.Steps.{
  Steps, done, more, allocates, frees, prints, maps, Steps-IsSafe, pmm_alloc_frame-fresh,
}
use kernel_v.Paging.Total.{Stopped, paging_map_page_cases, paging_map_page_lem}
use kernel_v.Paging.Virtual.{paging_map_page_virtual}
use kernel_v.Paging.Virtual.Call.{paging_map_page_virtual_lem}
use kernel_v.Paging.Virtual.Fault.{paging_map_page_virtual_fault}
use kernel_v.Paging.Virtual.Same.{paging_init-Identity}
use kernel_v.Pmm.Alloc.{Allocated, Searched, pmm_alloc_frame-Searched}
use kernel_v.Paging.Walk.{walk}
use kernel_v.Pmm.{pmm_alloc_frame, pmm_free_frame}
use kernel_v.Pmm.Bitmap.{used}
use kernel_v.Pmm.Supply.{pmm_alloc_frame-left}
use kernel_v.Samples.{machine}
use kernel_v.Samples.Started.{
  high_machine, high_started, high_started-IsSafe, high_started-used, high_started_free,
  high_started_total, high_started-walk, started_total, low_machine, started, started-IsSafe,
  started_left,
}

paging_init-walk_example :
    let k' = paging_init machine in
    (k'.cr3 ≡ page_directory)
    × (bit 31 k'.cr0 ≡ 1)
    × (walk k' 0xB8123 ≡ (if ltb 0xB8123 (2 ^ 22) then some (0xB8123 / 4096 * 4096 + 7) else none))
paging_init-walk_example = paging_init-walk 0xB8123 machine (omega arith)

paging_map_page_lem_example :
    (((pde started 0xC1001234 % 2 ≡ 1) ⊎ ((pmm_alloc_frame started).0 ≢ 0))
      × ((k' : Kernel) × (paging_map_page 0xC1001234 0x105000 3 started ≡ returns k')
          × Maps 0xC1001234 0x105000 3 started k'))
    ⊎ ((pde started 0xC1001234 % 2 ≡ 0)
        × ((pmm_alloc_frame started).0 ≡ 0)
        × ((k' : Kernel) × (paging_map_page 0xC1001234 0x105000 3 started ≡ halts k')
            × Stopped started k'))
paging_map_page_lem_example =
    paging_map_page_lem 0xC1001234 0x105000 3 started started-IsSafe (omega arith) (omega arith)

-- A frame is left.
frame_left : (pmm_alloc_frame started).0 ≢ 0
frame_left null =
    let a = pmm_alloc_frame-left started started-IsSafe.few (omega (arith, started_left)) in
    omega (arith, null, a.address, a.in_range.0, a.in_range.1, started-IsSafe.few)

mapped :
    (k' : Kernel) × (paging_map_page 0xC1001234 0x105000 3 started ≡ returns k')
    × Maps 0xC1001234 0x105000 3 started k'
mapped =
    (paging_map_page_cases 0xC1001234 0x105000 3 started started-IsSafe (omega arith)
        (omega arith)).0
      (inr frame_left)

-- A mapping, an allocation and a message.
some-Steps : Steps started (say (codes "done\n") [] (pmm_alloc_frame mapped.0).1)
some-Steps =
    more
      (more (more done (maps 0xC1001234 0x105000 3 (omega arith) (omega arith) (mapped.1)))
        allocates)
      (prints (codes "done\n") [])

Steps-IsSafe_example : IsSafe (say (codes "done\n") [] (pmm_alloc_frame mapped.0).1)
Steps-IsSafe_example = Steps-IsSafe some-Steps started-IsSafe

pmm_alloc_frame-fresh_example :
    let frame : ℕ = (pmm_alloc_frame started).0 / 4096 in
    ((pmm_alloc_frame started).0 ≡ frame * 4096)
    × (256 ≤ frame)
    × (frame < started.total_frames)
    × (used started frame ≡ false)
    × (used (pmm_alloc_frame started).1 frame ≡ true)
    × ((i : ℕ) → i < 1024 → IsLinked started i → table_of started i ≢ frame)
pmm_alloc_frame-fresh_example = pmm_alloc_frame-fresh done started-IsSafe frame_left

Steps-IsLow_example : IsLow 1024 (say (codes "done\n") [] (pmm_alloc_frame mapped.0).1)
Steps-IsLow_example =
    Steps-IsLow 1024 some-Steps started-IsSafe
      (paging_init-IsLow 1024 low_machine (omega arith) (omega arith))

given : Allocated started 1 started.total_frames (pmm_alloc_frame started)
given = pmm_alloc_frame-left started started-IsSafe.few (omega (arith, started_left))

-- An allocation and the free of its frame.
freed_again : Steps started (pmm_free_frame (given.frame * 4096) (pmm_alloc_frame started).1)
freed_again =
    let at : given.frame * 4096 / 4096 ≡ given.frame = omega arith in
    more (more done allocates) (
      frees (given.frame * 4096)
        (omega (arith, frame_high {f = given.frame} started-IsSafe given.free))
        (subst (IsData (pmm_alloc_frame started).1) (sym at)
          (no_table-Allocated started-IsSafe given)))

held : used (pmm_alloc_frame started).1 (given.frame * 4096 / 4096) ≡ true
held =
    let at : given.frame * 4096 / 4096 ≡ given.frame = omega arith in
    ap (used (pmm_alloc_frame started).1) at ∙ given.set given.frame ∙ ground arith

Steps-account_example :
    account (2 ^ 20) (pmm_free_frame (given.frame * 4096) (pmm_alloc_frame started).1)
    ≡ account (2 ^ 20) started
unfolding freed_again
Steps-account_example = Steps-account (2 ^ 20) refl freed_again ((tt, tt), held) started-IsSafe

frame_low : (pmm_alloc_frame started).0 < 2 ^ 22
frame_low = omega (arith, given.address, given.in_range.1, started_total)

paging_map_page_virtual_lem_example :
    paging_map_page_virtual 0xC1001234 0x105000 3 started
    ≡ some (paging_map_page 0xC1001234 0x105000 3 started)
paging_map_page_virtual_lem_example =
    paging_map_page_virtual_lem 0xC1001234 0x105000 3 started started-IsSafe
      (paging_init-Identity low_machine)
      (paging_init-IsLow 1024 low_machine (omega arith) (omega arith)).below (λ even. frame_low)
      (omega arith) (omega arith)

-- The first frame above 4 MB is the one that is left.
high_frame : Allocated high_started 1 high_started.total_frames (pmm_alloc_frame high_started)
high_frame = only (pmm_alloc_frame-Searched high_started)
  where
    only :
        Searched high_started 1 high_started.total_frames (pmm_alloc_frame high_started)
        → Allocated high_started 1 high_started.total_frames (pmm_alloc_frame high_started)
    only (inl a) = a
    only (inr e) =
        absurd (
          cc
            (high_started_free, e.none_free 1024 (omega arith) (omega (arith, high_started_total))))

-- Its address.
high_address :
    ((pmm_alloc_frame high_started).0 ≡ high_frame.frame * 4096)
    × (1024 ≤ high_frame.frame)
    × (high_frame.frame < 2048)
high_address =
    let small : high_frame.frame < 2048 =
      omega (arith, high_frame.in_range.1, high_started_total) in
    (
      high_frame.address ∙ omega (arith, small),
      elim (Bool-cases (ltb high_frame.frame 1024)) [
        | inl low ↦
            absurd (cc (high_frame.free, high_started-used high_frame.frame (ltb→lt _ _ low)))
        | inr above ↦ ltb→le _ _ above
      ],
      small,
    )

no_table : pde high_started 0xC1001234 % 2 ≡ 0
no_table = ap (λ (e : ℕ). e % 2) (directory-paging_init 772 high_machine (omega arith))

paging_map_page_virtual_fault_example :
    paging_map_page_virtual 0xC1001234 0x105000 3 high_started ≡ none
paging_map_page_virtual_fault_example =
    paging_map_page_virtual_fault 0xC1001234 0x105000 3 high_started high_started-IsSafe
      (paging_init-Identity high_machine) (omega arith) no_table
      (λ null. omega (arith, null, high_address.0, high_address.1))
      (high_started-walk _ (omega (arith, high_address.0, high_address.1))
        (omega (arith, high_address.0, high_address.2)))
