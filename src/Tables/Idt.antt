-- ===== src/Tables/Idt.antt =====
-- kernel/arch/x86/idt.c: the entries of the interrupt descriptor table.
use kernel_v.Base.{
  ◌-◌, ℕ, ◌+◌, ◌*◌, ◌/◌, ◌%◌, ◌^◌, ◌<◌, ◌≤◌, Bool, ◌≡◌, ◌≢◌, refl, ap, arith, bit_and, u8, u16,
  ◌>>>◌, ◌==◌, if◌then◌else◌, Bool-cases, inl, inr, true, false, for_range, zero, suc,
}
use kernel_v.Base.Bits.{bit_and_low}

pub record IdtEntry : Type 0 where
  pub base_low : ℕ
  pub sel : ℕ
  pub always0 : ℕ
  pub flags : ℕ
  pub base_high : ℕ

-- A store to `idt[num]`.
abbrev pub set_idt : ℕ → IdtEntry → (ℕ → IdtEntry) → ℕ → IdtEntry
set_idt num e idt i = if num == i then e else idt i

pub idt_set_gate : (num base sel flags : ℕ) → (ℕ → IdtEntry) → ℕ → IdtEntry
idt_set_gate num base sel flags idt =
    set_idt num
      (record {
        base_low = u16 (bit_and base 0xFFFF);
        sel = u16 sel;
        always0 = 0;
        flags = u8 flags;
        base_high = u16 (bit_and (base >>> 16) 0xFFFF);
      })
      idt

-- Its message is left out.
pub set_task_gate : (num sel : ℕ) → (ℕ → IdtEntry) → ℕ → IdtEntry
set_task_gate num sel idt =
    set_idt num (record { base_low = 0; sel = u16 sel; always0 = 0; flags = 0x85; base_high = 0 })
      idt

abbrev pub no_entry : IdtEntry
no_entry = record { base_low = 0; sel = 0; always0 = 0; flags = 0; base_high = 0 }

-- What the IDTR is loaded with.
pub record IdtPtr : Type 0 where
  pub limit : ℕ
  pub base : ℕ

abbrev pub idt_entries : ℕ
idt_entries = 256

-- `idt_ptr`, which `idt_flush` loads, for the table at `idt`; an entry has 8 bytes.
abbrev pub idt_ptr : (idt : ℕ) → IdtPtr
idt_ptr idt = record { limit = u16 (8 * idt_entries - 1); base = idt }

-- `isr_page_fault` is the address of the handler that the linker gives.
pub idt_init : (isr_page_fault : ℕ) → (ℕ → IdtEntry) → ℕ → IdtEntry
idt_init isr_page_fault idt =
    idt_set_gate 14 isr_page_fault 0x08 0x8E
      (set_task_gate 8 0x18 (for_range idt_entries 0 (λ i t. set_idt i no_entry t) idt))

-- How the processor reads a gate: present, its type, and the address of its handler.
abbrev pub is_present : IdtEntry → ℕ
is_present e = e.flags / 128

abbrev pub gate_type : IdtEntry → ℕ
gate_type e = e.flags % 16

abbrev pub offset_of : IdtEntry → ℕ
offset_of e = e.base_low + e.base_high * 2 ^ 16

stays_clear :
    (n i j : ℕ) (idt : ℕ → IdtEntry)
    → idt j ≡ no_entry
    → for_range n i (λ k t. set_idt k no_entry t) idt j ≡ no_entry
unfolding for_range
stays_clear zero i j idt e = e
stays_clear (suc n) i j idt e = stays_clear n (i + 1) j (set_idt i no_entry idt) (still (i == j))
  where
    still : (b : Bool) → (if b then no_entry else idt j) ≡ no_entry
    still true = refl
    still false = e

no_entry_cleared :
    (n i j : ℕ) (idt : ℕ → IdtEntry)
    → i ≤ j
    → j < i + n
    → for_range n i (λ k t. set_idt k no_entry t) idt j ≡ no_entry
unfolding for_range
no_entry_cleared zero i j idt h k = absurd (omega arith)
no_entry_cleared (suc n) i j idt h k = elim (Bool-cases (i == j)) [
  | inl e ↦ stays_clear n (i + 1) j (set_idt i no_entry idt) (rw e refl)
  | inr e ↦ no_entry_cleared n (i + 1) j (set_idt i no_entry idt) (ground arith) (omega arith)
]

-- Whatever the table held: the gate of double faults is the task gate of selector 0x18, that of page
-- faults leads to their handler by an interrupt gate of the code segment, and no other entry is present.
pub idt_init_lem :
    (isr_page_fault : ℕ) (idt : ℕ → IdtEntry)
    → isr_page_fault < 2 ^ 32
    → let t = idt_init isr_page_fault idt in
      ((is_present (t 8) ≡ 1) × (gate_type (t 8) ≡ 0x5) × ((t 8).sel ≡ 0x18))
      × ((is_present (t 14) ≡ 1)
          × (gate_type (t 14) ≡ 0xE)
          × ((t 14).sel ≡ 0x08)
          × (offset_of (t 14) ≡ isr_page_fault))
      × ((i : ℕ) → i < 256 → i ≢ 8 → i ≢ 14 → is_present (t i) ≡ 0)
unfolding idt_init idt_set_gate set_task_gate
idt_init_lem isr idt h = (
  (refl, refl, refl),
  (refl, refl, refl, omega (arith, bit_and_low 16 isr, bit_and_low 16 (isr / 2 ^ 16))),
  λ i k p q.
      let task : (8 == i) ≡ false = ground arith in
      let gate : (14 == i) ≡ false = ground arith in
      rw (task, gate)
        (ap (λ (e : IdtEntry). e.flags / 128)
          (no_entry_cleared 256 0 i idt (omega arith) (omega arith))),
)
