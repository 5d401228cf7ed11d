-- ===== src/Boot/High/Heap.antt =====
-- The heap access of `high_stack_entry` in kernel/main/kernel.c, after `kernel_main`.
use kernel_v.Base.{
  ◌⊎◌, ℕ, ◌+◌, ◌*◌, ◌/◌, ◌%◌, ◌<◌, ◌≤◌, ◌≡◌, refl, ap, ◌∙◌, arith, none, some, inl, ◌≢◌, ◌^◌,
}
use kernel_v.Boot.High.{before_heap, after_heap, high_stack_entry, store_faulting}
use kernel_v.Boot.Main.{Image, Machine}
use kernel_v.Boot.Main.Booted.{Booted}
use kernel_v.Kernel.{Kernel}
use kernel_v.Kernel.Said.{Said, Said-trans, Said-refl, say-Said}
use kernel_v.PageFault.{resumes, PageFaultStack, after_store, set_vram}
use kernel_v.Paging.Virtual.{store_virtual, store_mapped}
use kernel_v.PageFault.Access.{access, then_resume, at_mapping}
use kernel_v.PageFault.Handler.{heap, page_fault_handler-Demanded}
use kernel_v.Paging.Demand.{Demanded, Demanded-diag}
use kernel_v.Paging.Data.{written-IsSafe, walk-written, left-written}
use kernel_v.Paging.Memory.{load32, store32, load32-store32, ram-store32}
use kernel_v.Paging.Safe.{IsSafe, Said-IsSafe}
use kernel_v.Paging.Walk.{walk}
use kernel_v.Pmm.Supply.{free_frames}

pub before_heap-Said : (cur_esp : ℕ) (k : Kernel) → Said k (before_heap cur_esp k)
unfolding before_heap
before_heap-Said cur_esp k = say-Said _ _ (say-Said _ _ (say-Said _ _ (say-Said _ _ (Said-refl k))))

set_vram-Said : (m : ℕ → ℕ) {k k' : Kernel} → Said k k' → Said k (set_vram m k')
set_vram-Said m s = Said-trans s (record { kept = refl; interrupts = refl; mode = refl })

after_heap-Said : (tss_cr3 : ℕ) (k : Kernel) → Said k (after_heap tss_cr3 k)
unfolding after_heap
after_heap-Said tss_cr3 k = say-Said _ _ (
    say-Said _ _ (
      say-Said _ _ (
        say-Said _ _ (set_vram-Said _ (say-Said _ _ (say-Said _ _ (say-Said _ _ (Said-refl k))))))))

before_heap-Demanded :
    (cur_esp : ℕ) (k : Kernel) {a : ℕ} {k' : Kernel}
    → Demanded a (before_heap cur_esp k) k'
    → Demanded a k k'
unfolding before_heap
before_heap-Demanded cur_esp k {a} d = Demanded-diag a _ d

-- A store to an unmapped heap page, with frames enough.
store_faulting_lem :
    (frame : PageFaultStack) (esp ebp a value : ℕ) (k : Kernel)
    → IsSafe k
    → 0xC1000000 ≤ a
    → a < 0xC2000000
    → 2 ≤ free_frames k
    → walk k a ≡ none
    → (k₁ : Kernel) × (d : Demanded a k k₁) × (store_faulting frame esp ebp a value k
        ≡ resumes (store32 (d.frame * 4096 + a % 4096) value k₁))
unfolding store_faulting access at_mapping then_resume after_store store_virtual store_mapped
store_faulting_lem frame esp ebp a value k s low high two absent =
    let given = page_fault_handler-Demanded frame a esp ebp k s (heap low high) (inl two) in
    let d = given.2 in
    let page : (d.frame * 4096 + 3) / 4096 * 4096 ≡ d.frame * 4096 = omega arith in
    (given.0, d, rw (absent, given.1, d.maps, page) refl)

-- What the entry on the high stack leaves: the state is safe, 42 is in the frame `f` that backs the
-- heap address, every other page is mapped as before, and no byte but the word's differs from what the
-- handler left in `k₁`.
pub record Entered (f : ℕ) (k₀ k₁ k : Kernel) : Type 0 where
  pub safe : IsSafe k
  pub maps : walk k 0xC1001234 ≡ some (f * 4096 + 3)
  pub others : (w : ℕ) → w < 2 ^ 32 → w / 4096 ≢ 0xC1001 → walk k w ≡ walk k₀ w
  pub stored : load32 (f * 4096 + 0x234) k ≡ 42
  pub kept : (x : ℕ) → (x < f * 4096 + 0x234) ⊎ (f * 4096 + 0x234 + 4 ≤ x) → k.ram x ≡ k₁.ram x
  pub left : free_frames k₀ ≤ free_frames k + 2

-- The store of 42 to the mapped page, and the messages after it.
stored-Entered :
    (k₀ k₁ k : Kernel) (d : Demanded 0xC1001234 k₀ k₁)
    → Said (store32 (d.frame * 4096 + 0x234) 42 k₁) k
    → Entered d.frame k₀ k₁ k
stored-Entered k₀ k₁ k d said =
    let at : ℕ = d.frame * 4096 + 0x234 in
    let same : (w : ℕ) → w < 2 ^ 32 → walk k w ≡ walk k₁ w = λ w h.
      ap (λ (q : Kernel). walk q w) said.kept
      ∙ walk-written d.frame 0x8D 42 k₁ d.safe d.high d.is_data (omega arith) w h in
    record {
      safe =
          Said-IsSafe said
            (written-IsSafe d.frame 0x8D 42 k₁ d.safe d.high d.is_data (omega arith));
      maps = same 0xC1001234 (omega arith) ∙ d.maps;
      others = λ w h ne. same w h ∙ d.others w h ne;
      stored = ap (λ (q : Kernel). load32 at q) said.kept ∙ load32-store32 at 42 k₁;
      kept = λ x off. ap (λ (q : Kernel). q.ram x) said.kept ∙ ram-store32 at 42 x k₁ off;
      left = omega (
        arith,
        d.left,
        ap (λ (q : Kernel). free_frames q) said.kept,
        left-written d.frame 0x8D 42 k₁ d.safe d.high d.is_data (omega arith),
      );
    }

-- On a machine as `kernel_main` leaves it with two frames left, the entry on the high stack stores 42
-- to its heap address, whose page is not mapped: the handler maps the page to a frame that was not
-- used, and keeps every other mapping and the data of the used pages; the store is made in that
-- frame, which holds no page table, and the kernel goes on in a safe state.
pub high_stack_entry_lem :
    (frame : PageFaultStack) (esp ebp cur_esp tss_cr3 n : ℕ) (image : Image) (m m' : Machine)
    → Booted n image m m'
    → 2 ≤ n
    → (k₁ k : Kernel) × (d : Demanded 0xC1001234 m'.kernel k₁) × (walk m'.kernel 0xC1001234 ≡ none)
      × (high_stack_entry frame esp ebp cur_esp tss_cr3 m'.kernel ≡ resumes k)
      × Entered d.frame m'.kernel k₁ k
unfolding high_stack_entry then_resume Demanded-diag before_heap-Demanded
high_stack_entry_lem frame esp ebp cur_esp tss_cr3 n image m m' booted two =
    let k₀ : Kernel = m'.kernel in
    let k₂ : Kernel = before_heap cur_esp k₀ in
    let said = before_heap-Said cur_esp k₀ in
    let absent : walk k₀ 0xC1001234 ≡ none =
      booted.unmapped 0xC1001234 (omega arith) (omega arith) (inl (omega arith)) in
    let left : free_frames k₂ ≡ free_frames k₀ = ap (λ (q : Kernel). free_frames q) said.kept in
    let stored =
      store_faulting_lem frame esp ebp 0xC1001234 42 k₂ (Said-IsSafe said booted.safe) (omega arith)
        (omega arith) (omega (arith, left, booted.left, two))
        (ap (λ (q : Kernel). walk q 0xC1001234) said.kept ∙ absent) in
    let k₁ : Kernel = stored.0 in
    let d = before_heap-Demanded cur_esp k₀ stored.1 in
    let k₃ : Kernel = store32 (d.frame * 4096 + 0x234) 42 k₁ in
    let k₄ : Kernel = after_heap tss_cr3 k₃ in
    (k₁, k₄, d, absent, rw (stored.2) refl, stored-Entered k₀ k₁ k₄ d (after_heap-Said tss_cr3 k₃))
