-- ===== src/Tables/Gdt.antt =====
-- kernel/arch/x86/gdt.c: the entries of the global descriptor table.
use kernel_v.Base.{
  ℕ, zero, suc, ◌+◌, ◌-◌, ◌*◌, ◌/◌, ◌%◌, ◌^◌, ◌<◌, ◌≡◌, refl, ap₂, ◌∙◌, arith, bit_and, bit_or, u8,
  u16, ◌>>>◌, List, [], ◌∷◌,
}
use kernel_v.Base.Bits.{bit_and_low, bit_and_high, bit_or_fields_low}

pub record GdtEntry : Type 0 where
  pub limit_low : ℕ
  pub base_low : ℕ
  pub base_middle : ℕ
  pub access : ℕ
  pub granularity : ℕ
  pub base_high : ℕ

-- What `set_gdt_entry` stores in `gdt[num]`.
unfoldable pub gdt_entry : (base limit access gran : ℕ) → GdtEntry
gdt_entry base limit access gran = record {
  limit_low = u16 (bit_and limit 0xFFFF);
  base_low = u16 (bit_and base 0xFFFF);
  base_middle = u8 (bit_and (base >>> 16) 0xFF);
  access = u8 access;
  granularity = u8 (bit_or (bit_and (limit >>> 16) 0x0F) (bit_and gran 0xF0));
  base_high = u8 (bit_and (base >>> 24) 0xFF);
}

-- What the GDTR is loaded with.
pub record GdtPtr : Type 0 where
  pub limit : ℕ
  pub base : ℕ

abbrev pub gdt_entries : ℕ
gdt_entries = 4

-- `gdtp`, which `gdt_flush` loads, for the table at `gdt`; an entry has 8 bytes.
abbrev pub gdtp : (gdt : ℕ) → GdtPtr
gdtp gdt = record { limit = u16 (8 * gdt_entries - 1); base = gdt }

-- What `set_gdt_entry` fills the table with; the addresses of the task state and its size come from
-- the linker and the struct.
unfoldable pub gdt_table : (tss_df tss_size : ℕ) → List GdtEntry
gdt_table tss_df tss_size =
    gdt_entry 0 0 0 0
    ∷ gdt_entry 0 0xFFFFF 0x9A 0xCF
    ∷ gdt_entry 0 0xFFFFF 0x92 0xCF
    ∷ gdt_entry tss_df (tss_size - 1) 0x89 0x40
    ∷ []

-- A task state that is in use.
unfoldable pub busy : GdtEntry → GdtEntry
busy e = record e { access = bit_or e.access 0x02 }

unfoldable pub busy_at : (num : ℕ) → List GdtEntry → List GdtEntry
busy_at num [] = []
busy_at zero (e ∷ gdt) = busy e ∷ gdt
busy_at (suc num) (e ∷ gdt) = e ∷ busy_at num gdt

-- The selector that is loaded.
abbrev pub tss_selector : ℕ
tss_selector = 0x18

-- `ltr` changes the table: the processor marks the entry of the selector as busy.
unfoldable pub ltr : (sel : ℕ) → List GdtEntry → List GdtEntry
ltr sel gdt = busy_at (sel / 8) gdt

-- The table once the task register is loaded.
unfoldable pub gdt_init : (tss_df tss_size : ℕ) → List GdtEntry
gdt_init tss_df tss_size = ltr tss_selector (gdt_table tss_df tss_size)

-- How the processor puts an entry's parts together.
abbrev pub base_of : GdtEntry → ℕ
base_of e = e.base_low + e.base_middle * 2 ^ 16 + e.base_high * 2 ^ 24

abbrev pub limit_of : GdtEntry → ℕ
limit_of e = e.limit_low + e.granularity % 16 * 2 ^ 16

-- An entry reads as the base, the limit of 20 bits, the access byte and the four flags that it was
-- made from.
pub gdt_entry_lem :
    (base limit access gran : ℕ)
    → base < 2 ^ 32
    → limit < 2 ^ 20
    → access < 2 ^ 8
    → gran < 2 ^ 8
    → let e = gdt_entry base limit access gran in
      (base_of e ≡ base)
      × (limit_of e ≡ limit)
      × (e.access ≡ access)
      × (e.granularity / 16 ≡ gran / 16)
unfolding gdt_entry
gdt_entry_lem base limit access gran hb hl ha hg =
    let flags : bit_and gran 0xF0 ≡ gran / 16 * 2 ^ 4 =
      bit_and_high 4 gran 15 ∙ omega (arith, bit_and_low 4 (gran / 16)) in
    let parts : bit_or (bit_and (limit >>> 16) 0x0F) (bit_and gran 0xF0)
        ≡ gran / 16 * 2 ^ 4 + limit / 2 ^ 16 =
      ap₂ bit_or (bit_and_low 4 (limit / 2 ^ 16) ∙ omega arith) flags
      ∙ bit_or_fields_low (gran / 16) (limit / 2 ^ 16) 4 (omega arith) in
    (
      omega (
        arith,
        bit_and_low 16 base,
        bit_and_low 8 (base / 2 ^ 16),
        bit_and_low 8 (base / 2 ^ 24),
      ),
      omega (arith, bit_and_low 16 limit, parts),
      omega arith,
      omega (arith, parts),
    )

pub access-gdt_entry :
    (base limit access gran : ℕ) → (gdt_entry base limit access gran).access ≡ u8 access
unfolding gdt_entry
access-gdt_entry base limit access gran = refl

pub gdt_table_lem :
    (tss_df tss_size : ℕ)
    → gdt_table tss_df tss_size
      ≡ gdt_entry 0 0 0 0
        ∷ gdt_entry 0 0xFFFFF 0x9A 0xCF
        ∷ gdt_entry 0 0xFFFFF 0x92 0xCF
        ∷ gdt_entry tss_df (tss_size - 1) 0x89 0x40
        ∷ []
unfolding gdt_table
gdt_table_lem tss_df tss_size = refl

-- The parts of a task state's entry that `ltr` keeps, and its access byte.
pub busy-gdt_entry :
    (base limit gran : ℕ)
    → let e = busy (gdt_entry base limit 0x89 gran) in
      (base_of e ≡ base_of (gdt_entry base limit 0x89 gran))
      × (limit_of e ≡ limit_of (gdt_entry base limit 0x89 gran))
      × (e.access ≡ 0x8B)
unfolding busy gdt_entry
busy-gdt_entry base limit gran = (refl, refl, refl)

-- The table by its entries.
pub gdt_init_lem :
    (tss_df tss_size : ℕ)
    → gdt_init tss_df tss_size
      ≡ gdt_entry 0 0 0 0
        ∷ gdt_entry 0 0xFFFFF 0x9A 0xCF
        ∷ gdt_entry 0 0xFFFFF 0x92 0xCF
        ∷ busy (gdt_entry tss_df (tss_size - 1) 0x89 0x40)
        ∷ []
unfolding gdt_init gdt_table ltr busy_at
gdt_init_lem tss_df tss_size = refl
