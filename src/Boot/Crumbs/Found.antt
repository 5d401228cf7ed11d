-- ===== src/Boot/Crumbs/Found.antt =====
-- The values that kernel/arch/x86/double_fault_handler.asm leaves, and the check for them in
-- kernel/main/kernel.c.
use kernel_v.Base.{
  ℕ, ◌≤◌, ◌<◌, ◌≡◌, ◌⊎◌, refl, sym, ap, ◌∙◌, arith, Option, some, ◌>>=◌, false, [], ◌∷◌, codes,
}
use kernel_v.Boot.Crumbs.{leave_crumbs, mark_screen, halt_marked, double_fault_handler}
use kernel_v.Boot.Debug.{check_double_fault_breadcrumbs}
use kernel_v.Boot.Main.{Image, Machine}
use kernel_v.Boot.Main.Booted.{Booted}
use kernel_v.Kernel.{Kernel, say}
use kernel_v.Panik.{Diag}
use kernel_v.PageFault.{stops, set_vram}
use kernel_v.Paging.{page_directory}
use kernel_v.Paging.Data.{loaded-stored, IsData-stored, walk-stored}
use kernel_v.Paging.Mapping.{IsData}
use kernel_v.Paging.Memory.{
  load32, store32, load32-store32, load32-store32_ne, ram-store32, store32-ram,
}
use kernel_v.Paging.Virtual.{store_virtual}
use kernel_v.Paging.Virtual.Same.{Identity, Identity-same, store_identity}
use kernel_v.Printk.Format.{word, text}

-- The three values are in memory.
pub record Crumbs (k : Kernel) : Type 0 where
  pub first : load32 0x15000 k ≡ 0xDEADBEEF
  pub second : load32 0x15004 k ≡ 0xCAFEBABE
  pub third : load32 0x15008 k ≡ 0x12345678

abbrev crumbed : Kernel → Kernel
crumbed k = store32 0x15008 0x12345678 (store32 0x15004 0xCAFEBABE (store32 0x15000 0xDEADBEEF k))

crumbed-Crumbs : (k : Kernel) → Crumbs (crumbed k)
crumbed-Crumbs k =
    let k₁ : Kernel = store32 0x15000 0xDEADBEEF k in
    let k₂ : Kernel = store32 0x15004 0xCAFEBABE k₁ in
    record {
      first =
          load32-store32_ne 0x15000 0x15008 0x12345678 k₂ (omega arith)
          ∙ load32-store32_ne 0x15000 0x15004 0xCAFEBABE k₁ (omega arith)
          ∙ load32-store32 0x15000 0xDEADBEEF k;
      second =
          load32-store32_ne 0x15004 0x15008 0x12345678 k₂ (omega arith)
          ∙ load32-store32 0x15004 0xCAFEBABE k₁;
      third = load32-store32 0x15008 0x12345678 k₂;
    }

-- The stores go through the tables to the same addresses.
module _ (k : Kernel) (loaded : k.cr3 ≡ page_directory) (identity : Identity k)
    (no_table : IsData k 0x15) where
  leave_crumbs_lem : leave_crumbs k ≡ some (crumbed k)
  unfolding leave_crumbs
  leave_crumbs_lem =
      let k₁ : Kernel = store32 0x15000 0xDEADBEEF k in
      let k₂ : Kernel = store32 0x15004 0xCAFEBABE k₁ in
      let loaded₁ = loaded-stored 0x15 0 0xDEADBEEF k loaded (omega arith) no_table (omega arith) in
      let no_table₁ =
        IsData-stored 0x15 0 0xDEADBEEF k loaded (omega arith) no_table (omega arith) in
      let identity₁ : Identity k₁ =
        Identity-same k k₁
          (walk-stored 0x15 0 0xDEADBEEF k loaded (omega arith) no_table (omega arith)) identity in
      let identity₂ : Identity k₂ =
        Identity-same k₁ k₂
          (walk-stored 0x15 1 0xCAFEBABE k₁ loaded₁ (omega arith) no_table₁ (omega arith))
          identity₁ in
      ap
        (λ (q : Option Kernel). q >>= λ q₁.
          store_virtual 0x15004 0xCAFEBABE q₁ >>= λ q₂. store_virtual 0x15008 0x12345678 q₂)
        (store_identity 0x15000 k identity (omega arith) 0xDEADBEEF)
      ∙ ap (λ (q : Option Kernel). q >>= λ q₂. store_virtual 0x15008 0x12345678 q₂)
          (store_identity 0x15004 k₁ identity₁ (omega arith) 0xCAFEBABE)
      ∙ store_identity 0x15008 k₂ identity₂ (omega arith) 0x12345678

-- What is reported where all three are found.
pub found : Kernel → Kernel
found k =
    let k₁ = say (codes "Checking double fault breadcrumbs:\n") [] k in
    let k₂ =
      say (codes "  Magic1 (0x15000): 0x%08x %s\n") (word 0xDEADBEEF ∷ text (codes "(FOUND)") ∷ [])
        k₁ in
    let k₃ =
      say (codes "  Magic2 (0x15004): 0x%08x %s\n") (word 0xCAFEBABE ∷ text (codes "(FOUND)") ∷ [])
        k₂ in
    say (codes "  Magic3 (0x15008): 0x%08x %s\n") (word 0x12345678 ∷ text (codes "(FOUND)") ∷ []) k₃

found_lem : (k : Kernel) → Crumbs k → check_double_fault_breadcrumbs k ≡ found k
unfolding check_double_fault_breadcrumbs found
found_lem k c = rw (c.first, c.second, c.third) refl

diag-crumbed : (k : Kernel) → (crumbed k).diag ≡ k.diag
diag-crumbed k =
    let k₁ : Kernel = store32 0x15000 0xDEADBEEF k in
    ap (λ (q : Kernel). q.diag) (store32-ram 0x15008 0x12345678 (store32 0x15004 0xCAFEBABE k₁))
    ∙ ap (λ (q : Kernel). q.diag) (store32-ram 0x15004 0xCAFEBABE k₁)
    ∙ ap (λ (q : Kernel). q.diag) (store32-ram 0x15000 0xDEADBEEF k)

ram-crumbed : (x : ℕ) (k : Kernel) → (x < 0x15000) ⊎ (0x1500C ≤ x) → (crumbed k).ram x ≡ k.ram x
ram-crumbed x k off =
    let k₁ : Kernel = store32 0x15000 0xDEADBEEF k in
    ram-store32 0x15008 0x12345678 x (store32 0x15004 0xCAFEBABE k₁) (omega (arith, off))
    ∙ ram-store32 0x15004 0xCAFEBABE x k₁ (omega (arith, off))
    ∙ ram-store32 0x15000 0xDEADBEEF x k (omega (arith, off))

-- What the handler leaves of `k`.
pub record Marked (k k' : Kernel) : Type 0 where
  pub interrupts : k'.diag.interrupts ≡ false
  pub vram : k'.diag.console.screen.vram ≡ mark_screen k.diag.console.screen.vram
  pub crumbs : Crumbs k'
  pub ram : (x : ℕ) → (x < 0x15000) ⊎ (0x1500C ≤ x) → k'.ram x ≡ k.ram x
  pub reported : check_double_fault_breadcrumbs k' ≡ found k'

handler_Marked :
    (k : Kernel)
    → k.cr3 ≡ page_directory
    → Identity k
    → IsData k 0x15
    → (k' : Kernel) × (double_fault_handler k ≡ stops k') × Marked k k'
unfolding double_fault_handler halt_marked
handler_Marked k loaded identity no_table =
    let k₂ : Kernel = record k { diag = record k.diag { interrupts = false } } in
    let k₃ : Kernel = crumbed k₂ in
    let k₄ : Kernel = set_vram (mark_screen k₃.diag.console.screen.vram) k₃ in
    let c = crumbed-Crumbs k₂ in
    let crumbs : Crumbs k₄ = record { first = c.first; second = c.second; third = c.third } in
    (
      k₄,
      ap (halt_marked k₂) (leave_crumbs_lem k₂ loaded identity no_table),
      record {
        interrupts = ap (λ (d : Diag). d.interrupts) (diag-crumbed k₂);
        vram = ap (λ (d : Diag). mark_screen d.console.screen.vram) (diag-crumbed k₂);
        crumbs = crumbs;
        ram = λ x off. ram-crumbed x k₂ off;
        reported = found_lem k₄ crumbs;
      },
    )

-- The instructions of the handler, on the memory of the machine that `kernel_main` leaves and with the
-- page directory of the handler's task state, wherever they are entered from: no store of them faults,
-- they end in the loop with interrupts off, the first two cells of the screen are marked, the three
-- values are in memory, and nothing else of memory changes. A kernel that starts with this memory
-- reports that all three are found.
pub double_fault_handler_lem :
    (n : ℕ) (image : Image) (m m' : Machine)
    → Booted n image m m'
    → let k₀ = record m'.kernel { cr3 = m'.tss_df.cr3 } in
      (k : Kernel) × (double_fault_handler k₀ ≡ stops k) × Marked k₀ k
double_fault_handler_lem n image m m' booted =
    let loaded = booted.safe.tables.loaded in
    let same : m'.tss_df.cr3 ≡ m'.kernel.cr3 = booted.tss_cr3 ∙ sym loaded in
    rw same (
      handler_Marked m'.kernel loaded booted.identity
        (booted.low_data 0x15 (omega arith) (omega arith)))
