-- ===== src/Boot/Main/Booted.antt =====
-- `kernel_main` of kernel/main/kernel.c as a whole: the state at the switch to the high stack.
use kernel_v.Base.{
  ℕ, ◌+◌, ◌*◌, ◌/◌, ◌^◌, ◌≤◌, ◌<◌, ◌≡◌, ◌≢◌, ◌⊎◌, refl, sym, ap, subst, ◌∙◌, arith, [], take, true,
  some, none, inl, u32, lt→ltb, le→ltb,
}
use kernel_v.Boot.{goes, ◌>>>=◌, of_option, map_stack}
use kernel_v.Boot.Main.{
  Image, Machine, kernel_main, start_frames, start_paging, read_memory_map, load_tss, before_switch,
  start_console,
}
use kernel_v.Boot.Main.Frames.{Roomy}
use kernel_v.Boot.Main.Paged.{Paged, Said-Paged, start_paging-Spared}
use kernel_v.Boot.Main.Tabled.{tabled, load_tss-Said, before_switch-Said, tables_of-tabled}
use kernel_v.Boot.Stack.{Stacked, map_stack-Stacked}
use kernel_v.Kernel.{Kernel}
use kernel_v.MemoryMap.Usable.{available}
use kernel_v.Panik.{normal}
use kernel_v.Paging.{page_directory}
use kernel_v.Paging.Mapping.{IsData}
use kernel_v.Paging.Safe.{IsSafe, Said-IsSafe}
use kernel_v.Paging.Walk.{walk}
use kernel_v.Pmm.Bitmap.{used}
use kernel_v.Pmm.Supply.{free_frames}
use kernel_v.Tables.Gdt.{gdtp, gdt_init}
use kernel_v.Tables.Idt.{idt_ptr, idt_init}
use kernel_v.Tables.Tss.{TssEntry, update_tss_cr3-init_tss, tss_size}

-- The stages one after the other.
stages :
    (image : Image) (m : Machine) (k₃ k₄ k₆ : Kernel)
    → start_frames image (read_memory_map image (tabled image m).kernel) ≡ some k₃
    → start_paging image k₃ ≡ some k₄
    → map_stack (load_tss image (record (tabled image m) { kernel = k₄ })).kernel ≡ goes k₆
    → kernel_main image m
      ≡ goes (record (load_tss image (record (tabled image m) { kernel = k₄ })) {
        kernel = before_switch k₆;
      })
unfolding kernel_main ◌>>>=◌ of_option
stages image m k₃ k₄ k₆ frames paging stack = rw (frames, paging, stack) refl

-- The machine at the switch: the first 4 MB are mapped to themselves, the stack's 15 pages to used
-- frames, each to its own, and nothing else is mapped. The only table in the low megabyte is the one
-- at 0x81000. The state is safe, `n` frames are left, the registers have the addresses of the tables, and
-- the task state for double faults has the directory, its handler and a stack of its own. `gdt_init`
-- has marked its entry as busy.
pub record Booted (n : ℕ) (image : Image) (m m' : Machine) : Type 0 where
  pub safe : IsSafe m'.kernel
  pub left : n ≤ free_frames m'.kernel
  pub identity : (a : ℕ) → a < 2 ^ 22 → walk m'.kernel a ≡ some (a / 4096 * 4096 + 7)
  pub stack :
      (a : ℕ)
      → 0xC2FF1000 ≤ a
      → a < 0xC3000000
      → (f : ℕ) × (f < 2 ^ 20)
        × (used m'.kernel f ≡ true)
        × (walk m'.kernel a ≡ some (f * 4096 + 3))
  pub distinct :
      (a b : ℕ)
      → 0xC2FF1000 ≤ a
      → a < 0xC3000000
      → 0xC2FF1000 ≤ b
      → b < 0xC3000000
      → a / 4096 ≢ b / 4096
      → walk m'.kernel a ≢ walk m'.kernel b
  pub unmapped :
      (a : ℕ)
      → 2 ^ 22 ≤ a
      → a < 2 ^ 32
      → (a < 0xC2FF1000) ⊎ (0xC3000000 ≤ a)
      → walk m'.kernel a ≡ none
  pub low_data : (g : ℕ) → g < 256 → g ≢ 0x81 → IsData m'.kernel g
  pub idt : m'.idt ≡ idt_init image.isr_page_fault m.idt
  pub gdt : m'.gdt ≡ gdt_init image.tss_df_address tss_size
  pub registers :
      (m'.idtr ≡ idt_ptr image.idt_address) × (m'.gdtr ≡ gdtp image.gdt_address) × (m'.tr ≡ 0x18)
  pub tss_cr3 : m'.tss_df.cr3 ≡ page_directory
  pub tss_esp : m'.tss_df.esp ≡ u32 (image.double_fault_stack_address + 0x1000)
  pub tss_eip : m'.tss_df.eip ≡ image.double_fault_handler

stacked-Booted :
    (n : ℕ) (image : Image) (m : Machine) (k₄ k₆ : Kernel)
    → Paged (30 + n) k₄
    → Stacked 0xC3000000 (load_tss image (record (tabled image m) { kernel = k₄ })).kernel k₆
    → Booted n image m (record (load_tss image (record (tabled image m) { kernel = k₄ })) {
      kernel = before_switch k₆;
    })
stacked-Booted n image m k₄ k₆ paged s =
    let m₅ : Machine = load_tss image (record (tabled image m) { kernel = k₄ }) in
    let p : Paged (30 + n) m₅.kernel =
      Said-Paged (30 + n) (load_tss-Said image (record (tabled image m) { kernel = k₄ })) paged in
    let said = before_switch-Said k₆ in
    let same = λ (a : ℕ). ap (λ (q : Kernel). walk q a) said.kept in
    let tables = tables_of-tabled image m k₄ in
    let state =
      update_tss_cr3-init_tss image.double_fault_stack_address image.double_fault_handler
        (start_console m.kernel).cr3 k₄.cr3 in
    record {
      safe = Said-IsSafe said s.safe;
      left = omega (arith, p.left, s.left, ap (λ (q : Kernel). free_frames q) said.kept);
      identity = λ a h.
          same a
          ∙ s.others a (omega arith) (inl (omega arith))
          ∙ p.identity a (omega arith)
          ∙ rw (lt→ltb a (2 ^ 22) h) refl;
      stack = λ a low high.
          let b = s.backed a low high in
          (b.0, b.1, ap (λ (q : Kernel). used q (b.0)) said.kept ∙ b.2, same a ∙ b.3);
      distinct = λ a b low high low' high' ne e.
          s.distinct a b low high low' high' ne (sym (same a) ∙ e ∙ same b);
      unmapped = λ a low h off.
          same a ∙ s.others a h off ∙ p.identity a h ∙ rw (le→ltb a (2 ^ 22) low) refl;
      low_data = λ g h ne.
          subst (λ (q : Kernel). IsData q g) (sym said.kept) (s.low_data g h (p.low_data g ne));
      idt = tables.0;
      gdt = tables.1;
      registers = tables.3;
      tss_cr3 = ap (λ (t : TssEntry). t.cr3) (tables.2) ∙ state.0 ∙ paged.safe.tables.loaded;
      tss_esp = ap (λ (t : TssEntry). t.esp) (tables.2) ∙ state.1;
      tss_eip = ap (λ (t : TssEntry). t.eip) (tables.2) ∙ state.2;
    }

-- From a kernel in normal mode with no region known and no frame index, and a memory map whose usable
-- regions end before the last page, count no frame twice and leave `32 + n` frames beside the low
-- megabyte, the kernel and the bitmap, the kernel ending at 0x80000 or below, and the bitmap at 0x9C000 or
-- below, off the stack that the start runs on, the start goes through without a panic, up to the switch to the
-- high stack. Then the first 4 MB are mapped to themselves, the 15 pages of the stack to a used frame
-- each, no two to the same, and no other address, the guard page's among them. The state is safe with
-- `n` frames left, the descriptor tables are filled and their registers loaded, the entry of the
-- double fault's task state being marked as busy by the load of the task register, and that task state has the page directory, its handler and the top of its own stack.
pub kernel_main-Booted :
    (n : ℕ) (image : Image) (m : Machine)
    → m.kernel.diag.current_panik_mode ≡ normal
    → m.kernel.usable_memory_region ≡ []
    → m.kernel.max_frame_idx ≡ 0
    → Roomy (30 + n) image (take 32 (available image.e820_map))
    → (m' : Machine) × (kernel_main image m ≡ goes m') × Booted n image m m'
kernel_main-Booted n image m mode empty start room =
    let r = start_paging-Spared (30 + n) image m mode empty start room in
    let k₄ : Kernel = r.1 in
    let p =
      Said-Paged (30 + n) (load_tss-Said image (record (tabled image m) { kernel = k₄ })) r.4 in
    let stack =
      map_stack-Stacked (load_tss image (record (tabled image m) { kernel = k₄ })).kernel p.safe
        (omega (arith, p.left)) in
    (
      record (load_tss image (record (tabled image m) { kernel = k₄ })) {
        kernel = before_switch stack.0;
      },
      stages image m r.0 k₄ stack.0 (r.2) (r.3) (stack.1),
      stacked-Booted n image m k₄ stack.0 r.4 stack.2,
    )
