-- ===== src/Boot/Stack/Virtual.antt =====
-- The loop of `kernel_main` in kernel/main/kernel.c that maps the kernel's stack, with the accesses to
-- the directory and the tables made through the tables, paging being on by then.
use kernel_v.Base.{
  ◌≢◌, ℕ, zero, suc, ◌+◌, ◌-◌, ◌*◌, ◌/◌, ◌%◌, ◌^◌, ◌≤◌, ◌<◌, ◌≡◌, refl, sym, ap, ◌∙◌, arith, Option,
  some, ◌>>=◌, ◌==◌, false, u32, bit_or, ltb, if◌then◌else◌, [], ◌∷◌, codes, lt→ltb, le→ltb, subst,
}
use kernel_v.Boot.{
  Stage, goes, halted, endless, ◌>>>=◌, of_option, of_outcome, check_stack_frame, map_stack_page,
  map_stack_from, map_stack, stack_size,
}
use kernel_v.Boot.Stack.{map_stack_page-Demanded, round}
use kernel_v.Kernel.{Kernel, say}
use kernel_v.PageFault.{kernel_stack_bottom_virt}
use kernel_v.Paging.{get_entry, page_directory, page_present, page_write}
use kernel_v.Paging.Demand.{Demanded}
use kernel_v.Paging.Frames.{pmm_alloc_frame-IsSafe}
use kernel_v.Paging.Map.{walk-absent}
use kernel_v.Paging.Mapping.{TablesBelow}
use kernel_v.Paging.Room.{Rooms}
use kernel_v.Paging.Safe.{IsSafe}
use kernel_v.Paging.Virtual.{paging_map_page_virtual}
use kernel_v.Paging.Virtual.Demand.{Reaches, demand_virtual}
use kernel_v.Paging.Virtual.Same.{Identity}
use kernel_v.Pmm.{page_size, pmm_alloc_frame, pmm_set_frame_bitmap}
use kernel_v.Pmm.Alloc.{Allocated}
use kernel_v.Pmm.Bitmap.{used}
use kernel_v.Pmm.Reserve.{count_free}
use kernel_v.Pmm.Supply.{free_frames, pmm_alloc_frame-left}
use kernel_v.Printk.Format.{word}

-- What follows a stage and may fault.
unfoldable pub after_stage : {A B : Type 0} → Stage A → (A → Option (Stage B)) → Option (Stage B)
after_stage (goes a) next = next a
after_stage (halted k) next = some (halted k)
after_stage endless next = some endless

-- A round of the loop; `none` where an access faults.
pub map_stack_page_virtual : (off : ℕ) → Kernel → Option (Stage Kernel)
map_stack_page_virtual off k =
    let virt = u32 (kernel_stack_bottom_virt + off) in
    let phys_frame = (pmm_alloc_frame k).0 in
    after_stage (check_stack_frame virt phys_frame (pmm_alloc_frame k).1) λ k₁.
      paging_map_page_virtual virt phys_frame (bit_or page_present page_write) (
        say (codes "Mapping stack page: virt=0x%08x phys=0x%08x\n")
          (word virt ∷ word phys_frame ∷ []) k₁)
      >>= λ o. some (
          of_outcome o >>>= λ k₂.
          of_option (pmm_set_frame_bitmap phys_frame (u32 (phys_frame + page_size)) k₂))

pub map_stack_from_virtual : (rounds off : ℕ) → Kernel → Option (Stage Kernel)
map_stack_from_virtual zero off k = some endless
map_stack_from_virtual (suc rounds) off k =
    let rest = map_stack_page_virtual off k >>= λ s.
    after_stage s (map_stack_from_virtual rounds (u32 (off + page_size))) in
    if ltb off stack_size then rest else some (goes k)

pub map_stack_virtual : Kernel → Option (Stage Kernel)
map_stack_virtual k = map_stack_from_virtual 16 page_size k

-- The stack's pages have their entries in one table.
one_table : (v : ℕ) → 0xC2FF0000 ≤ v → v < 0xC3000000 → v / 2 ^ 22 ≡ 0xC2FF1000 / 2 ^ 22
one_table v from below = omega (arith, from, below)

-- At which page of the stack does not matter.
moved : (v w : ℕ) {k : Kernel} → v / 2 ^ 22 ≡ w / 2 ^ 22 → Reaches v k → Reaches w k
moved v w {k} same e = record {
  safe = e.safe;
  identity = e.identity;
  below = e.below;
  rooms = λ even. e.rooms (ap (λ (i : ℕ). get_entry page_directory i k % 2) same ∙ even);
}

round_same :
    (off : ℕ) (k : Kernel)
    → off < 0x10000
    → Reaches 0xC2FF1000 k
    → 2 ≤ free_frames k
    → map_stack_page_virtual off k ≡ some (map_stack_page off k)
unfolding map_stack_page_virtual map_stack_page check_stack_frame ◌>>>=◌ after_stage
round_same off k h reached two =
    let s = reached.safe in
    let v : ℕ = 0xC2FF0000 + off in
    let r : ℕ = (pmm_alloc_frame k).0 in
    let a : Allocated k 1 k.total_frames (pmm_alloc_frame k) =
      pmm_alloc_frame-left k s.few (omega (arith, two)) in
    let k₁ : Kernel =
      say (codes "Mapping stack page: virt=0x%08x phys=0x%08x\n") (word v ∷ word r ∷ [])
        (pmm_alloc_frame k).1 in
    let ne : r ≢ 0 = λ null. omega (arith, null, a.address, a.in_range.0, a.in_range.1, s.few) in
    let same =
      demand_virtual v k k₁.diag
        (moved 0xC2FF1000 v (sym (one_table v (omega arith) (omega arith))) reached)
        ((pmm_alloc_frame-IsSafe k s).mode) (omega arith) ne in
    let at : u32 v ≡ v = omega arith in
    let some_frame : (r == 0) ≡ false = ground (arith, ne) in rw (at, some_frame, same) refl

next :
    (n : ℕ) {k k' : Kernel}
    → 0xC2FF1 ≤ n
    → n < 0xC3000
    → Reaches 0xC2FF1000 k
    → Demanded (n * 4096) k k'
    → Reaches 0xC2FF1000 k'
next n {k} {k'} low high reached d =
    let index = one_table (n * 4096) (omega (arith, low)) (omega (arith, high)) in
    record {
      safe = d.safe;
      identity =
          λ a h. d.others a (omega (arith, h)) (omega (arith, h, low)) ∙ reached.identity a h;
      below =
          d.bound 1024
            (λ even.
              reached.rooms (ap (λ (i : ℕ). get_entry page_directory i k % 2) (sym index) ∙ even))
            reached.below;
      rooms = λ even.
          let absent =
            walk-absent k' (n * 4096) d.safe.tables.loaded
              (ap (λ (i : ℕ). get_entry page_directory i k' % 2) index ∙ even) in
          absurd (cc (absent, d.maps));
    }

round_virtual :
    (rounds off off' : ℕ) (k k₁ : Kernel) (r : Option (Stage Kernel))
    → off < 0x10000
    → u32 (off + 4096) ≡ off'
    → map_stack_page_virtual off k ≡ some (map_stack_page off k)
    → map_stack_page off k ≡ goes k₁
    → map_stack_from_virtual rounds off' k₁ ≡ r
    → map_stack_from_virtual (suc rounds) off k ≡ r
unfolding map_stack_from_virtual after_stage
round_virtual rounds off off' k k₁ r inside following same first rest =
    rw (lt→ltb off 0x10000 inside, same, first, following) rest

-- What the loop ends in.
pub record Ended (m : ℕ) (k k' : Kernel) : Type 0 where
  pub reaches : Reaches 0xC2FF1000 k'
  pub spares : (l : ℕ) → l < 2 ^ 20 → count_free (used k) l 1 ≤ count_free (used k') l 1 + 2 * m

map_stack_from_same :
    (m rounds n : ℕ) (k : Kernel)
    → m < rounds
    → n + m ≡ 0xC3000
    → 0xC2FF1 ≤ n
    → Reaches 0xC2FF1000 k
    → 2 * m ≤ free_frames k
    → (k' : Kernel) × (map_stack_from_virtual rounds (n * 4096 - 0xC2FF0000) k ≡ some (goes k'))
      × (map_stack_from rounds (n * 4096 - 0xC2FF0000) k ≡ goes k')
      × Ended m k k'
unfolding map_stack_from_virtual map_stack_from after_stage ◌>>>=◌
map_stack_from_same m zero n k h e low reached enough = absurd (omega arith)
map_stack_from_same zero (suc rounds) n k h e low reached enough =
    let done = le→ltb (n * 4096 - 0xC2FF0000) 0x10000 (omega (arith, e)) in
    (k, rw done refl, rw done refl, record { reaches = reached; spares = λ l h. omega arith })
map_stack_from_same (suc m) (suc rounds) n k h e low reached enough =
    let off : ℕ = n * 4096 - 0xC2FF0000 in
    let inside : off < 0x10000 = omega (arith, e) in
    let two : 2 ≤ free_frames k = omega (arith, enough) in
    let first = map_stack_page-Demanded off k inside reached.safe two in
    let k₁ : Kernel = first.0 in
    let at : 0xC2FF0000 + off ≡ n * 4096 = omega (arith, low) in
    let d : Demanded (n * 4096) k k₁ = subst (λ v. Demanded v k k₁) at first.2 in
    let following : u32 (off + 4096) ≡ (n + 1) * 4096 - 0xC2FF0000 = omega (arith, low, e) in
    let rest =
      map_stack_from_same m rounds (n + 1) k₁ (omega arith) (omega (arith, e)) (omega (arith, low))
        (next n low (omega (arith, e)) reached d) (omega (arith, enough, d.left)) in
    (
      rest.0,
      round_virtual rounds off ((n + 1) * 4096 - 0xC2FF0000) k k₁ (some (goes rest.0)) inside
          following (round_same off k inside reached two) (first.1) (rest.1),
      round rounds off ((n + 1) * 4096 - 0xC2FF0000) k k₁ (goes rest.0) inside following (first.1)
          (rest.2),
      record {
        reaches = rest.3.reaches;
        spares = λ l h. omega (arith, d.spares l h, rest.3.spares l h);
      },
    )

-- From a safe state with the first 4 MB mapped to themselves, the tables in them, two of their frames
-- free and 30 frames left in all: the loop that maps the stack, with all accesses to the directory and
-- the tables made through the tables, does not fault, and ends as the loop on memory does, in the same
-- state. The first 4 MB are mapped to themselves and have the tables then too, and of the first frames
-- no more than 30 were taken.
pub map_stack_virtual_lem :
    (k : Kernel)
    → IsSafe k
    → Identity k
    → TablesBelow 1024 k
    → Rooms 1024 k
    → 30 ≤ free_frames k
    → (k' : Kernel) × (map_stack_virtual k ≡ some (goes k'))
      × (map_stack k ≡ goes k')
      × Ended 15 k k'
unfolding map_stack_virtual map_stack
map_stack_virtual_lem k s identity below rooms enough =
    map_stack_from_same 15 16 0xC2FF1 k (omega arith) refl (omega arith)
      (record { safe = s; identity = identity; below = below; rooms = λ even. rooms }) enough
