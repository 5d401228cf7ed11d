-- ===== src/Paging/Steps.antt =====
-- The memory management of kernel/memory as a step relation: allocating, freeing and reserving
-- frames, mapping pages, storing to frames, and printing, in any order.
use kernel_v.Base.{
  ℕ, ◌+◌, ◌*◌, ◌/◌, ◌%◌, ◌^◌, ◌≤◌, ◌<◌, ◌≡◌, ◌≢◌, sym, ap, subst, ◌∙◌, arith, ◌==◌, List, some, inl,
  inr, Bool-cases, true, false, ltb, ltb→lt, ltb→le, ==_iff,
}
use mathlib.Core.Option.{some-injective}
use kernel_v.Kernel.{Kernel, say}
use kernel_v.Panik.{Outcome, returns, halts}
use kernel_v.Paging.{paging_map_page}
use kernel_v.Paging.Frames.{
  pmm_alloc_frame-IsSafe, pmm_free_frame-IsSafe, pmm_set_frame_bitmap-IsSafe,
}
use kernel_v.Paging.Data.{written-IsSafe}
use kernel_v.Paging.Memory.{store32}
use kernel_v.Paging.Map.{pde}
use kernel_v.Paging.Mapping.{Maps, IsData}
use kernel_v.Paging.Safe.{diag-IsSafe, IsSafe, table_of, IsLinked}
use kernel_v.Paging.Total.{paging_map_page_cases}
use kernel_v.Pmm.{pmm_alloc_frame, pmm_free_frame, pmm_set_frame_bitmap}
use kernel_v.Pmm.Alloc.{Allocated, pmm_alloc_frame-ne_null}
use kernel_v.Pmm.Bitmap.{used}
use kernel_v.Printk.Format.{Arg}

-- A step of the kernel. What is freed or stored to is asked to lie above the low megabyte and to be
-- no table.
pub data Step (k : Kernel) : Kernel → Type 0 where
  allocates : Step k (pmm_alloc_frame k).1
  frees : (addr : ℕ) → 256 ≤ addr / 4096 → IsData k (addr / 4096) → Step k (pmm_free_frame addr k)
  reserves :
      (start end : ℕ) {k' : Kernel}
      → start < 2 ^ 32
      → pmm_set_frame_bitmap start end k ≡ some k'
      → Step k k'
  maps :
      (v p f : ℕ) {k' : Kernel}
      → v < 2 ^ 32
      → p < 2 ^ 32
      → paging_map_page v p f k ≡ returns k'
      → Step k k'
  stores :
      (f j value : ℕ)
      → 256 ≤ f
      → IsData k f
      → j < 1024
      → Step k (store32 (f * 4096 + 4 * j) value k)
  prints : (fmt : List ℕ) (args : List Arg) → Step k (say fmt args k)

-- Any number of steps.
pub data Steps (k : Kernel) : Kernel → Type 0 where
  done : Steps k k
  more : {k' k'' : Kernel} → Steps k k' → Step k' k'' → Steps k k''

-- The state of a result, and that it is one.
returned : Kernel → Outcome Kernel → Kernel
returned k (returns k') = k'
returned k (halts k') = k

Returns : Outcome Kernel → Type 0
Returns (returns k) = Unit
Returns (halts k) = ⊥

pub step_maps :
    (v p f : ℕ) (k k' : Kernel)
    → IsSafe k
    → v < 2 ^ 32
    → p < 2 ^ 32
    → paging_map_page v p f k ≡ returns k'
    → Maps v p f k k'
unfolding returned Returns
step_maps v p f k k' s hv hp e =
    let cases = paging_map_page_cases v p f k s hv hp in
    elim (Bool-cases (pde k v % 2 == 0)) [
      | inr odd ↦ mapped (cases.0 (inl (ground arith)))
      | inl even ↦ elim (Bool-cases ((pmm_alloc_frame k).0 == 0)) [
        | inr some_frame ↦ mapped (cases.0 (inr (ground arith)))
        | inl null ↦
            let stop = cases.1 ((==_iff _ 0).0 even, (==_iff _ 0).0 null) in
            absurd (subst Returns (sym e ∙ stop.1) tt)
      ]
    ]
  where
    mapped :
        (k₁ : Kernel) × (paging_map_page v p f k ≡ returns k₁) × Maps v p f k k₁ → Maps v p f k k'
    mapped m = subst (Maps v p f k) (ap (returned k) (sym (m.1) ∙ e)) m.2

-- A step from a safe state leads to a safe state.
pub Step-IsSafe : {k k' : Kernel} → Step k k' → IsSafe k → IsSafe k'
Step-IsSafe {k} allocates s = pmm_alloc_frame-IsSafe k s
Step-IsSafe (frees addr high no_table) s = pmm_free_frame-IsSafe addr s high no_table
Step-IsSafe {k} {k'} (reserves start end h e) s =
    let r = pmm_set_frame_bitmap-IsSafe start end h s in
    subst IsSafe (some-injective (r.0) k' (sym (r.1) ∙ e)) r.2
Step-IsSafe {k} {k'} (maps v p f hv hp e) s = (step_maps v p f k k' s hv hp e).safe
Step-IsSafe {k} (stores f j value high no_table h) s = written-IsSafe f j value k s high no_table h
Step-IsSafe {k} (prints fmt args) s = diag-IsSafe _ k s.mode s

-- From a safe state, one in which the directory at 0x80000 is loaded, the bitmap at 0x90000 is for at
-- most `2 ^ 20` frames, the low megabyte is used, and the linked tables are used pages of their own
-- off the bitmap, any allocations, calls of `pmm_set_frame_bitmap`, mappings that return, messages,
-- and frees of and stores to frames above the low megabyte that are no table's lead to a safe state
-- again.
pub Steps-IsSafe : {k k' : Kernel} → Steps k k' → IsSafe k → IsSafe k'
Steps-IsSafe done s = s
Steps-IsSafe (more steps step) s = Step-IsSafe step (Steps-IsSafe steps s)

-- From a safe state, after any such steps, an allocation that does not return null returns the
-- address of a page above the low megabyte that was not used, so neither the directory, nor the
-- bitmap, nor a table.
pub pmm_alloc_frame-fresh :
    {k k' : Kernel}
    → Steps k k'
    → IsSafe k
    → (pmm_alloc_frame k').0 ≢ 0
    → let frame : ℕ = (pmm_alloc_frame k').0 / 4096 in
      ((pmm_alloc_frame k').0 ≡ frame * 4096)
      × (256 ≤ frame)
      × (frame < k'.total_frames)
      × (used k' frame ≡ false)
      × (used (pmm_alloc_frame k').1 frame ≡ true)
      × ((i : ℕ) → i < 1024 → IsLinked k' i → table_of k' i ≢ frame)
pmm_alloc_frame-fresh {k} {k'} steps before ne =
    let s = Steps-IsSafe steps before in
    let a = pmm_alloc_frame-ne_null k' s.few ne in
    let small : a.frame < 2 ^ 20 = omega (arith, a.in_range.1, s.few) in
    let index : (pmm_alloc_frame k').0 / 4096 ≡ a.frame = omega (arith, a.address, small) in
    rw index (
      a.address ∙ omega (arith, small),
      high s a,
      a.in_range.1,
      a.free,
      a.set a.frame ∙ ground arith,
      λ i h present e. cc (a.free, s.table_used i h present, ap (used k') e),
    )
  where
    high : IsSafe k' → (a : Allocated k' 1 k'.total_frames (pmm_alloc_frame k')) → 256 ≤ a.frame
    high s a = elim (Bool-cases (ltb a.frame 256)) [
      | inl low ↦ absurd (cc (a.free, s.low_used a.frame (ltb→lt _ _ low)))
      | inr above ↦ ltb→le _ _ above
    ]
