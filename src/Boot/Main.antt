-- ===== src/Boot/Main.antt =====
-- `kernel_main` of kernel/main/kernel.c, up to the switch to the high stack.
pub mod Framed
pub mod Frames
pub mod Tabled
pub mod Paged
pub mod Booted
pub mod Virtual
pub mod DoubleFault
pub mod PowerOn
use kernel_v.Base.{
  ℕ, zero, suc, ◌+◌, ◌-◌, List, [], ◌∷◌, Option, some, ◌>>=◌, u8, u32, update, for_range, ◌==◌,
  if◌then◌else◌, codes,
}
use kernel_v.Boot.{Stage, goes, ◌>>>=◌, of_option, map_stack}
use kernel_v.Boot.Debug.{
  check_double_fault_breadcrumbs, debug_idt_entry, debug_gdt_entry, debug_tss_contents,
  debug_page_tables,
}
use kernel_v.Kernel.{Kernel, say}
use kernel_v.MemoryMap.{E820Entry, parse_and_print_e820_map}
use kernel_v.PageFault.{kernel_stack_top_virt}
use kernel_v.Paging.{paging_init}
use kernel_v.Pmm.{pmm_init, pmm_alloc_frame}
use kernel_v.Pmm.Region.{
  pmm_reserve_memory_region, reserved_type_init, reserved_type_kernel, reserved_type_bitmap,
  reserved_type_page_table,
}
use kernel_v.Printk.{printk_init}
use kernel_v.Printk.Format.{word, text}
use kernel_v.Tables.Gdt.{GdtPtr, gdtp, GdtEntry, gdt_entry, gdt_init, tss_selector}
use kernel_v.Tables.Idt.{IdtPtr, idt_ptr, IdtEntry, idt_init}
use kernel_v.Tables.Tss.{TssEntry, tss_size, double_fault_stack_size, init_tss, update_tss_cr3}

-- The addresses that the linker gives, and the entries that the BIOS leaves at E820_MAP_ADDRESS.
pub record Image : Type 0 where
  pub kernel_start : ℕ
  pub kernel_end : ℕ
  pub isr_page_fault : ℕ
  pub idt_address : ℕ
  pub gdt_address : ℕ
  pub double_fault_handler : ℕ
  pub tss_df_address : ℕ
  pub double_fault_stack_address : ℕ
  pub e820_map : List E820Entry

-- The kernel's state with the descriptor tables and their registers.
pub record Machine : Type 0 where
  pub kernel : Kernel
  pub idt : ℕ → IdtEntry
  pub gdt : List GdtEntry
  pub tss_df : TssEntry
  pub idtr : IdtPtr
  pub gdtr : GdtPtr
  pub tr : ℕ
  pub double_fault_stack : ℕ → ℕ

-- `gdt[num]`.
unfoldable pub gdt_at : ℕ → List GdtEntry → GdtEntry
gdt_at num [] = gdt_entry 0 0 0 0
gdt_at zero (e ∷ gdt) = e
gdt_at (suc num) (e ∷ gdt) = gdt_at num gdt

abbrev rule : List ℕ
rule = codes "\n==================================================\n"

abbrev end_rule : List ℕ
end_rule = codes "==================================================\n"

pub start_console : Kernel → Kernel
start_console k =
    let k₁ = record k { diag = record k.diag { console = printk_init k.diag.console } } in
    let k₂ =
      say (codes "%s v%s - Hello Devjit!\n") (text (codes "Kernel-V") ∷ text (codes "0.2") ∷ [])
        k₁ in
    let k₃ = say (codes "Kernel-V is running! Welcome to your custom kernel, Devjit!\n") [] k₂ in
    check_double_fault_breadcrumbs k₃

-- `idt_init`, `init_tss` and `gdt_init`, with the messages of `set_task_gate` and `gdt_init`.
pub start_tables : Image → Machine → Machine
start_tables image m =
    let k₁ =
      say (codes "Set task gate %d: sel=0x%04x, flags=0x%02x\n")
        (word 8 ∷ word 0x18 ∷ word 0x85 ∷ []) m.kernel in
    let current_tr : ℕ = tss_selector in
    let k₂ =
      say (codes "Current Task Register: 0x%04x (should be 0x18)\n") (word current_tr ∷ []) k₁ in
    record m {
      kernel = k₂;
      idt = idt_init image.isr_page_fault m.idt;
      tss_df = init_tss image.double_fault_stack_address image.double_fault_handler m.kernel.cr3;
      gdt = gdt_init image.tss_df_address tss_size;
      idtr = idt_ptr image.idt_address;
      gdtr = gdtp image.gdt_address;
      tr = current_tr;
    }

-- `double_fault_stack[i] = 0xAA + i`
pub pattern : (ℕ → ℕ) → ℕ → ℕ
pattern stack = for_range 16 0 (λ i s. update s i (u8 (0xAA + i))) stack

pub debug_tables : Image → Machine → Machine
debug_tables image m =
    let k₁ = say (codes "DEBUG: IDT and GDT Setup\n") [] (say rule [] m.kernel) in
    let k₂ = debug_idt_entry 8 (m.idt 8) k₁ in
    let k₃ = debug_gdt_entry 3 (gdt_at 3 m.gdt) k₂ in
    let k₄ = say end_rule [] (debug_tss_contents m.tss_df k₃) in
    let k₅ =
      say (codes "Double fault stack: 0x%08x to 0x%08x\n")
        (word image.double_fault_stack_address
          ∷ word (u32 (image.double_fault_stack_address + double_fault_stack_size))
          ∷ [])
        k₄ in
    let k₆ =
      say (codes "Double fault stack size: %d bytes\n") (word double_fault_stack_size ∷ []) k₅ in
    record m {
      kernel = say (codes "Double fault stack test pattern written\n") [] k₆;
      double_fault_stack = pattern m.double_fault_stack;
    }

pub read_memory_map : Image → Kernel → Kernel
read_memory_map image k =
    let k₁ = say (codes "Parsing BIOS Memory Map (E820)...\n") [] (say rule [] k) in
    let s =
      parse_and_print_e820_map image.e820_map
        (record { usable_memory_region = k₁.usable_memory_region; console = k₁.diag.console }) in
    record k₁ {
      usable_memory_region = s.usable_memory_region;
      diag = record k₁.diag { console = s.console };
    }

-- `void* frame = pmm_alloc_frame(); printk(frame ? found : missing, frame);`
pub try_frame : (found missing : List ℕ) → Kernel → Kernel
try_frame found missing k =
    let frame = (pmm_alloc_frame k).0 in
    say (if frame == 0 then missing else found) (word frame ∷ []) (pmm_alloc_frame k).1

abbrev pub try_frame1 : Kernel → Kernel
try_frame1 =
    try_frame (codes "Allocated frame at address: %p\n") (codes "Failed to allocate frame\n")

abbrev pub try_frame2 : Kernel → Kernel
try_frame2 =
    try_frame (codes "Allocated another frame at address: %p\n")
      (codes "Failed to allocate another frame\n")

pub start_frames : Image → Kernel → Option Kernel
start_frames image k = do
  k₁ ← pmm_init k
  k₂ ← pmm_reserve_memory_region image.kernel_start image.kernel_end reserved_type_init k₁
  k₃ ← pmm_reserve_memory_region image.kernel_start image.kernel_end reserved_type_kernel k₂
  k₄ ← pmm_reserve_memory_region image.kernel_start image.kernel_end reserved_type_bitmap k₃
  some (try_frame2 (try_frame1 k₄))

pub start_paging : Image → Kernel → Option Kernel
start_paging image k =
    let k₁ = say (codes "Initializing Paging...\n") [] (say rule [] k) in
    pmm_reserve_memory_region image.kernel_start image.kernel_end reserved_type_page_table
      (debug_page_tables (paging_init k₁))

-- `update_tss_cr3` and what follows it on the console.
pub load_tss : Image → Machine → Machine
load_tss image m =
    let tss = update_tss_cr3 m.kernel.cr3 m.tss_df in
    let k₁ = say (codes "Double fault TSS configured:\n") [] (say rule [] m.kernel) in
    let k₂ = say (codes "  TSS address: 0x%08x\n") (word image.tss_df_address ∷ []) k₁ in
    let k₃ = say (codes "  Handler EIP: 0x%08x\n") (word tss.eip ∷ []) k₂ in
    let k₄ = say (codes "  Handler ESP: 0x%08x\n") (word tss.esp ∷ []) k₃ in
    let k₅ = say (codes "  Handler CR3: 0x%08x\n") (word tss.cr3 ∷ []) k₄ in
    record m { kernel = say (codes "Mapping stack pages...\n") [] (say rule [] k₅); tss_df = tss }

abbrev pub new_stack_ptr : ℕ
new_stack_ptr = kernel_stack_top_virt - 16

pub before_switch : Kernel → Kernel
before_switch k =
    let k₁ = say (codes "Paging initialized successfully!\n") [] k in
    let k₂ = say (codes "About to switch to high virtual stack...\n") [] k₁ in
    say (codes "New stack pointer: 0x%08x\n") (word new_stack_ptr ∷ []) k₂

-- The stages on the machine's kernel.
abbrev on_kernel : Machine → Stage Kernel → Stage Machine
on_kernel m stage = stage >>>= λ k. goes (record m { kernel = k })

-- Up to the call of `switch_to_high_stack`, which does not return.
pub kernel_main : Image → Machine → Stage Machine
kernel_main image m =
    let m₁ = start_tables image (record m { kernel = start_console m.kernel }) in
    let m₂ = debug_tables image m₁ in
    on_kernel m₂ (of_option (start_frames image (read_memory_map image m₂.kernel))) >>>= λ m₃.
    on_kernel m₃ (of_option (start_paging image m₃.kernel)) >>>= λ m₄.
    let m₅ = load_tss image m₄ in
    on_kernel m₅ (map_stack m₅.kernel) >>>= λ m₆.
    goes (record m₆ { kernel = before_switch m₆.kernel })
