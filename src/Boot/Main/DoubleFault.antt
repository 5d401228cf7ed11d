-- ===== src/Boot/Main/DoubleFault.antt =====
-- What a double fault finds after `kernel_main` of kernel/main/kernel.c.
use kernel_v.Base.{
  Bool, true, false, leb, ◌==◌, ◌&&◌, ◌/◌, ◌%◌, sym, ◌≤◌, ℕ, ◌+◌, ◌*◌, ◌^◌, ◌<◌, ◌≡◌, ap, ◌∙◌, refl,
  arith, u32, [], ◌∷◌,
}
use kernel_v.Boot.Main.{Image, Machine, gdt_at}
use kernel_v.Boot.Main.Booted.{Booted}
use kernel_v.Paging.{page_directory}
use kernel_v.Tables.Gdt.{
  GdtPtr, GdtEntry, gdt_entry, gdt_table, busy, busy-gdt_entry, gdt_table_lem, gdt_init_lem,
  base_of, limit_of, gdt_entry_lem,
}
use kernel_v.Tables.Tss.{tss_size}
use kernel_v.Tables.Idt.{IdtPtr, is_present, gate_type, idt_init_lem}

fourth : (a b c d : GdtEntry) → gdt_at 3 (a ∷ b ∷ c ∷ d ∷ []) ≡ d
unfolding gdt_at
fourth a b c d = refl

-- Whether the processor switches to the task that the gate of a vector asks for: the vector is within
-- the IDT, its gate is a present task gate, the gate's selector is one of the GDT and within it, and
-- the entry there is a present task state that is available, and not busy.
pub enters_task : (vector : ℕ) → Machine → Bool
enters_task vector m =
    let gate = m.idt vector in
    let e = gdt_at (gate.sel / 8) m.gdt in
    leb (8 * vector + 7) m.idtr.limit
    && ((is_present gate == 1)
        && (((gate_type gate == 0x5) && (gate.sel / 4 % 2 == 0))
            && (leb (gate.sel + 7) m.gdtr.limit
                && ((e.access / 128 == 1) && (e.access % 32 == 0x09)))))

-- On a machine as `kernel_main` leaves it, for addresses of 32 bits: entry 8 of the IDT is a present
-- task gate whose selector is that of GDT entry 3; this entry has the address and the last byte of the
-- task state; and the task state has the page directory, the handler, and the top of the double fault
-- stack. The registers have the addresses of the tables, with limits that all 256 vectors and the
-- selector's entry are within. But the task register has the selector of the gate, and the entry is
-- marked as busy: the processor does not make the task switch of a double fault. It is this mark alone
-- that it refuses: with the table as it was before `ltr` its test is passed.
pub double_fault_lem :
    (n : ℕ) (image : Image) (m m' : Machine)
    → image.isr_page_fault < 2 ^ 32
    → image.tss_df_address < 2 ^ 32
    → Booted n image m m'
    → ((is_present (m'.idt 8) ≡ 1) × (gate_type (m'.idt 8) ≡ 0x5) × ((m'.idt 8).sel ≡ 3 * 8))
      × ((base_of (gdt_at 3 m'.gdt) ≡ image.tss_df_address)
          × (limit_of (gdt_at 3 m'.gdt) ≡ 103)
          × ((gdt_at 3 m'.gdt).access ≡ 0x8B))
      × ((m'.tss_df.cr3 ≡ page_directory)
          × (m'.tss_df.eip ≡ image.double_fault_handler)
          × (m'.tss_df.esp ≡ u32 (image.double_fault_stack_address + 0x1000)))
      × ((m'.idtr.base ≡ image.idt_address)
          × ((v : ℕ) → v < 256 → 8 * v + 7 ≤ m'.idtr.limit)
          × (m'.gdtr.base ≡ image.gdt_address)
          × ((m'.idt 8).sel + 7 ≤ m'.gdtr.limit)
          × ((m'.idt 8).sel ≡ m'.tr))
      × ((enters_task 8 m' ≡ false)
          × (enters_task 8 (record m' { gdt = gdt_table image.tss_df_address tss_size }) ≡ true))
unfolding enters_task
double_fault_lem n image m m' isr tss b =
    let gate = (idt_init_lem image.isr_page_fault m.idt isr).0 in
    let task = gdt_entry image.tss_df_address 103 0x89 0x40 in
    let e : gdt_at 3 m'.gdt ≡ busy task =
      ap (gdt_at 3) (b.gdt ∙ gdt_init_lem image.tss_df_address 104) ∙ fourth _ _ _ _ in
    let entry =
      gdt_entry_lem image.tss_df_address 103 0x89 0x40 tss (omega arith) (omega arith)
        (omega arith) in
    let marked = busy-gdt_entry image.tss_df_address 103 0x40 in
    let gate' : (is_present (m'.idt 8) ≡ 1) × (gate_type (m'.idt 8) ≡ 0x5) × ((m'.idt 8).sel ≡ 24) =
      rw b.idt gate in
    let free : gdt_at 3 (gdt_table image.tss_df_address 104) ≡ task =
      ap (gdt_at 3) (gdt_table_lem image.tss_df_address 104) ∙ fourth _ _ _ _ in
    let registers = b.registers in
    let idt_end : m'.idtr.limit ≡ 2047 = ap (λ (p : IdtPtr). p.limit) (registers.0) in
    let gdt_end : m'.gdtr.limit ≡ 31 = ap (λ (p : GdtPtr). p.limit) (registers.1) in
    (
      gate',
      rw e (marked.0 ∙ entry.0, marked.1 ∙ entry.1, marked.2),
      (b.tss_cr3, b.tss_eip, b.tss_esp),
      (
        ap (λ (p : IdtPtr). p.base) (registers.0),
        λ v h. omega (arith, h, idt_end),
        ap (λ (p : GdtPtr). p.base) (registers.1),
        omega (arith, gate'.2, gdt_end),
        gate'.2 ∙ sym (registers.2),
      ),
      (
        rw (gate'.0, gate'.1, gate'.2, idt_end, gdt_end, e, marked.2) refl,
        rw (gate'.0, gate'.1, gate'.2, idt_end, gdt_end, free, entry.2) refl,
      ),
    )
