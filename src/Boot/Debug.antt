-- ===== src/Boot/Debug.antt =====
-- The messages of kernel/main/kernel.c and kernel/memory/paging.c on the tables.
pub mod Shown
use kernel_v.Base.{
  ℕ, ◌+◌, ◌*◌, ◌/◌, ◌%◌, List, [], ◌∷◌, bit_and, bit_or, ◌<<<◌, ◌>>>◌, ◌==◌, if◌then◌else◌, codes,
  u32,
}
use kernel_v.Kernel.{Kernel, say}
use kernel_v.Paging.{page_directory, first_page_table, get_entry, page_present}
use kernel_v.Paging.Memory.{load32}
use kernel_v.Pmm.{page_size}
use kernel_v.Printk.Format.{word, text}
use kernel_v.Tables.Gdt.{GdtEntry}
use kernel_v.Tables.Idt.{IdtEntry}
use kernel_v.Tables.Tss.{TssEntry}

abbrev pub breadcrumb : (value expected : ℕ) → List ℕ
breadcrumb value expected = if value == expected then codes "(FOUND)" else codes "(not found)"

unfoldable pub check_double_fault_breadcrumbs : Kernel → Kernel
check_double_fault_breadcrumbs k =
    let magic1 = load32 0x15000 k in
    let magic2 = load32 0x15004 k in
    let magic3 = load32 0x15008 k in
    let k₁ = say (codes "Checking double fault breadcrumbs:\n") [] k in
    let k₂ =
      say (codes "  Magic1 (0x15000): 0x%08x %s\n")
        (word magic1 ∷ text (breadcrumb magic1 0xDEADBEEF) ∷ []) k₁ in
    let k₃ =
      say (codes "  Magic2 (0x15004): 0x%08x %s\n")
        (word magic2 ∷ text (breadcrumb magic2 0xCAFEBABE) ∷ []) k₂ in
    say (codes "  Magic3 (0x15008): 0x%08x %s\n")
      (word magic3 ∷ text (breadcrumb magic3 0x12345678) ∷ []) k₃

say_present : ℕ → Kernel → Kernel
say_present flags k =
    if bit_and flags 0x80 == 0
    then say (codes "    Present: NO\n") [] k
    else say (codes "    Present: YES\n") [] k

say_gate_type : ℕ → Kernel → Kernel
say_gate_type gate_type k =
    if gate_type == 0x5
    then say (codes "    Type: Task Gate\n") [] k
    else (if gate_type == 0xE
        then say (codes "    Type: Interrupt Gate\n") [] k
        else say (codes "    Type: 0x%x (unknown)\n") (word gate_type ∷ []) k)

-- `e` is `idt[num]`.
pub debug_idt_entry : (num : ℕ) → IdtEntry → Kernel → Kernel
debug_idt_entry num e k =
    let k₁ = say (codes "IDT Entry %d:\n") (word num ∷ []) k in
    let k₂ = say (codes "  base_low:  0x%04x\n") (word e.base_low ∷ []) k₁ in
    let k₃ = say (codes "  base_high: 0x%04x\n") (word e.base_high ∷ []) k₂ in
    let k₄ = say (codes "  sel:       0x%04x\n") (word e.sel ∷ []) k₃ in
    let k₅ = say (codes "  always0:   0x%02x\n") (word e.always0 ∷ []) k₄ in
    let k₆ = say (codes "  flags:     0x%02x\n") (word e.flags ∷ []) k₅ in
    say_gate_type (bit_and e.flags 0x0F) (say_present e.flags k₆)

-- The base, the limit and the type that `debug_gdt_entry` reads from an entry.
pub debug_base : GdtEntry → ℕ
debug_base e = bit_or (bit_or (e.base_high <<< 24) (e.base_middle <<< 16)) e.base_low

pub debug_limit : GdtEntry → ℕ
debug_limit e = bit_or (bit_and e.granularity 0x0F <<< 16) e.limit_low

pub desc_type : GdtEntry → ℕ
desc_type e = bit_and (e.access >>> 3) 0x1

pub type_text : ℕ → List ℕ
type_text t = if t == 0 then codes "    Type: System\n" else codes "    Type: Code/Data\n"

-- `e` is `gdt[num]`.
pub debug_gdt_entry : (num : ℕ) → GdtEntry → Kernel → Kernel
debug_gdt_entry num e k =
    let k₁ = say (codes "GDT Entry %d:\n") (word num ∷ []) k in
    let k₂ = say (codes "  base: 0x%08x\n") (word (debug_base e) ∷ []) k₁ in
    let k₃ = say (codes "  limit: 0x%05x\n") (word (debug_limit e) ∷ []) k₂ in
    let k₄ = say (codes "  access: 0x%02x\n") (word e.access ∷ []) k₃ in
    let k₅ = say (codes "  granularity: 0x%02x\n") (word e.granularity ∷ []) k₄ in
    say (type_text (desc_type e)) [] (say_present e.access k₅)

pub debug_tss_contents : TssEntry → Kernel → Kernel
debug_tss_contents tss k =
    let k₁ = say (codes "TSS Contents:\n") [] k in
    let k₂ = say (codes "  esp: 0x%08x\n") (word tss.esp ∷ []) k₁ in
    let k₃ = say (codes "  ss:  0x%04x\n") (word tss.ss ∷ []) k₂ in
    let k₄ = say (codes "  cs:  0x%04x\n") (word tss.cs ∷ []) k₃ in
    let k₅ = say (codes "  eip: 0x%08x\n") (word tss.eip ∷ []) k₄ in
    let k₆ = say (codes "  cr3: 0x%08x\n") (word tss.cr3 ∷ []) k₅ in
    say (codes "  ds:  0x%04x\n") (word tss.ds ∷ []) k₆

abbrev vga_page : ℕ
vga_page = 0xB8000 / page_size

say_mapped : ℕ → Kernel → Kernel
say_mapped entry k =
    if bit_and entry page_present == 0
    then say (codes "[DEBUG_PAGING] VGA memory is NOT mapped!\n") [] k
    else say (codes "[DEBUG_PAGING] VGA memory is mapped and present.\n") [] k

pub debug_page_tables : Kernel → Kernel
debug_page_tables k =
    let entry = get_entry first_page_table vga_page k in
    let k₁ =
      say (codes "[DEBUG_PAGING] Page directory entry 0: 0x%08x\n")
        (word (get_entry page_directory 0 k) ∷ []) k in
    let k₂ =
      say (codes "[DEBUG_PAGING] VGA memory mapping (0xB8000): Page Table Entry %d: 0x%08x\n")
        (word vga_page ∷ word entry ∷ []) k₁ in
    say_mapped entry k₂

pub debug_print_esp_args : (arg1 arg2 : ℕ) → Kernel → Kernel
debug_print_esp_args arg1 arg2 k =
    say (codes "switch_to_high_stack: [esp+4]=0x%08x [esp+8]=0x%08x\n") (word arg1 ∷ word arg2 ∷ [])
      k
