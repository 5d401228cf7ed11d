-- ===== src/Boot/Debug/Shown.antt =====
-- What the messages of kernel/main/kernel.c on the tables read, and that they change nothing.
use kernel_v.Base.{
  ℕ, ◌+◌, ◌*◌, ◌/◌, ◌%◌, ◌^◌, ◌<◌, ◌≡◌, ap, ◌∙◌, refl, arith, bit_and, bit_or, ◌==◌, codes,
}
use kernel_v.Base.Bits.{bit_and_low, bit_or_fields}
use kernel_v.Boot.Debug.{
  check_double_fault_breadcrumbs, debug_idt_entry, say_present, say_gate_type, debug_base,
  debug_limit, desc_type, type_text, debug_gdt_entry, debug_tss_contents, say_mapped,
  debug_page_tables,
}
use kernel_v.Kernel.{Kernel}
use kernel_v.Kernel.Said.{Said, Said-refl, say-Said, Said-if}
use kernel_v.Tables.Gdt.{GdtEntry, gdt_entry, base_of, limit_of, busy, busy-gdt_entry}
use kernel_v.Tables.Idt.{IdtEntry}
use kernel_v.Tables.Tss.{TssEntry}

pub check_double_fault_breadcrumbs-Said : (k : Kernel) → Said k (check_double_fault_breadcrumbs k)
unfolding check_double_fault_breadcrumbs
check_double_fault_breadcrumbs-Said k =
    say-Said _ _ (say-Said _ _ (say-Said _ _ (say-Said _ _ (Said-refl k))))

say_present-Said : (flags : ℕ) {k k' : Kernel} → Said k k' → Said k (say_present flags k')
unfolding say_present
say_present-Said flags s = Said-if (bit_and flags 0x80 == 0) (say-Said _ _ s) (say-Said _ _ s)

pub debug_idt_entry-Said : (num : ℕ) (e : IdtEntry) (k : Kernel) → Said k (debug_idt_entry num e k)
unfolding debug_idt_entry say_gate_type
debug_idt_entry-Said num e k =
    let said = say_present-Said e.flags (
      say-Said _ _
        (say-Said _ _ (say-Said _ _ (say-Said _ _ (say-Said _ _ (say-Said _ _ (Said-refl k))))))) in
    Said-if (bit_and e.flags 0x0F == 0x5) (say-Said _ _ said)
      (Said-if (bit_and e.flags 0x0F == 0xE) (say-Said _ _ said) (say-Said _ _ said))

pub debug_gdt_entry-Said : (num : ℕ) (e : GdtEntry) (k : Kernel) → Said k (debug_gdt_entry num e k)
unfolding debug_gdt_entry
debug_gdt_entry-Said num e k = say-Said _ _ (
    say_present-Said e.access
      (say-Said _ _ (say-Said _ _ (say-Said _ _ (say-Said _ _ (say-Said _ _ (Said-refl k)))))))

pub debug_tss_contents-Said : (tss : TssEntry) (k : Kernel) → Said k (debug_tss_contents tss k)
unfolding debug_tss_contents
debug_tss_contents-Said tss k = say-Said _ _ (
    say-Said _ _
      (say-Said _ _ (say-Said _ _ (say-Said _ _ (say-Said _ _ (say-Said _ _ (Said-refl k)))))))

pub debug_page_tables-Said : (k : Kernel) → Said k (debug_page_tables k)
unfolding debug_page_tables say_mapped
debug_page_tables-Said k =
    let said = say-Said _ _ (say-Said _ _ (Said-refl k)) in
    Said-if _ (say-Said _ _ said) (say-Said _ _ said)

-- For an entry whose fields have the widths of the struct, the base and the limit that
-- `debug_gdt_entry` prints are those that the processor reads; the type that it prints is bit 3 of the
-- access byte.
pub debug_base-base_of :
    (e : GdtEntry)
    → e.base_low < 2 ^ 16
    → e.base_middle < 2 ^ 8
    → e.limit_low < 2 ^ 16
    → (debug_base e ≡ base_of e)
      × (debug_limit e ≡ limit_of e)
      × (desc_type e ≡ e.access / 2 ^ 3 % 2)
unfolding debug_base debug_limit desc_type
debug_base-base_of e low middle limit =
    let high : bit_or (e.base_high * 2 ^ 24) (e.base_middle * 2 ^ 16)
        ≡ (e.base_high * 2 ^ 8 + e.base_middle) * 2 ^ 16 =
      bit_or_fields e.base_high (e.base_middle * 2 ^ 16) 24 (omega arith) ∙ omega arith in
    (
      ap (λ (n : ℕ). bit_or n e.base_low) high
          ∙ bit_or_fields (e.base_high * 2 ^ 8 + e.base_middle) e.base_low 16 low
          ∙ omega arith,
      ap (λ (n : ℕ). bit_or (n * 2 ^ 16) e.limit_low) (bit_and_low 4 e.granularity)
          ∙ bit_or_fields (e.granularity % 16) e.limit_low 16 limit
          ∙ omega arith,
      bit_and_low 1 (e.access / 2 ^ 3),
    )

-- The type is read from bit 3 of the access byte, where the processor has it in bit 4: the entry of
-- the task state, whose bit 4 is clear as a system entry's is, is shown as one for code or data.
pub desc_type-gdt_entry :
    (base limit gran : ℕ)
    → let e = busy (gdt_entry base limit 0x89 gran) in
      (e.access / 2 ^ 4 % 2 ≡ 0) × (type_text (desc_type e) ≡ codes "    Type: Code/Data\n")
unfolding desc_type type_text
desc_type-gdt_entry base limit gran =
    let access = (busy-gdt_entry base limit gran).2 in rw access (refl, refl)
