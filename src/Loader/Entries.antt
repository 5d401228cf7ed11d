-- ===== src/Loader/Entries.antt =====
-- The entries that bootloader/stage2.asm has the BIOS store, and the kernel's reading of them.
use kernel_v.Base.{
  ℕ, zero, suc, ◌+◌, ◌*◌, ◌/◌, ◌%◌, ◌^◌, ◌≤◌, ◌<◌, ◌≡◌, ◌⊎◌, refl, ap, ap₂, ◌∙◌, arith, ◌∷◌, List,
}
use kernel_v.Kernel.{Kernel}
use kernel_v.Loader.{store64, store_entry}
use kernel_v.MemoryMap.{E820Entry}
use kernel_v.MemoryMap.Read.{load64, entry_at, entries_from}
use kernel_v.Paging.Memory.{
  load32, store32, load32-store32, load32-store32_ne, ram-store32, store32-ram,
}

-- The fields are words of their sizes.
pub record IsEntry (e : E820Entry) : Type 0 where
  pub base : e.base < 2 ^ 64
  pub length : e.length < 2 ^ 64
  pub type : e.type < 2 ^ 32
  pub reserved : e.reserved < 2 ^ 32

halves : (v : ℕ) → v < 2 ^ 64 → v % 2 ^ 32 + v / 2 ^ 32 % 2 ^ 32 * 2 ^ 32 ≡ v
halves v h = omega (arith, h)

load64-store64 : (at v : ℕ) (k : Kernel) → v < 2 ^ 64 → load64 at (store64 at v k) ≡ v
unfolding store64
load64-store64 at v k h =
    ap₂ (λ (a b : ℕ). a + b * 2 ^ 32)
      (load32-store32_ne at (at + 4) (v / 2 ^ 32) (store32 at v k) (omega arith)
        ∙ load32-store32 at v k)
      (load32-store32 (at + 4) (v / 2 ^ 32) (store32 at v k))
    ∙ halves v h

load32-store64_ne :
    (addr at v : ℕ) (k : Kernel)
    → (addr + 4 ≤ at) ⊎ (at + 8 ≤ addr)
    → load32 addr (store64 at v k) ≡ load32 addr k
unfolding store64
load32-store64_ne addr at v k apart =
    load32-store32_ne addr (at + 4) (v / 2 ^ 32) (store32 at v k) (omega (arith, apart))
    ∙ load32-store32_ne addr at v k (omega (arith, apart))

-- From `k` to `k'` memory alone changed.
abbrev pub MemoryAlone : Kernel → Kernel → Type 0
MemoryAlone k k' = k' ≡ record k { ram = k'.ram }

pub MemoryAlone-trans :
    (k k' k'' : Kernel) → MemoryAlone k k' → MemoryAlone k' k'' → MemoryAlone k k''
MemoryAlone-trans k k' k'' a b = b ∙ ap (λ (q : Kernel). record q { ram = k''.ram }) a

store64-MemoryAlone : (at v : ℕ) (k : Kernel) → MemoryAlone k (store64 at v k)
unfolding store64
store64-MemoryAlone at v k =
    MemoryAlone-trans k (store32 at v k) _ (store32-ram at v k)
      (store32-ram (at + 4) (v / 2 ^ 32) (store32 at v k))

ram-store64 : (at v x : ℕ) (k : Kernel) → (x < at) ⊎ (at + 8 ≤ x) → (store64 at v k).ram x ≡ k.ram x
unfolding store64
ram-store64 at v x k off =
    ram-store32 (at + 4) (v / 2 ^ 32) x (store32 at v k) (omega (arith, off))
    ∙ ram-store32 at v x k (omega (arith, off))

-- The entry's fields one after the other.
module _ (at : ℕ) (e : E820Entry) (k : Kernel) where
  abbrev k₁ : Kernel
  k₁ = store64 at e.base k

  abbrev k₂ : Kernel
  k₂ = store64 (at + 8) e.length k₁

  abbrev k₃ : Kernel
  k₃ = store32 (at + 16) e.type k₂

  -- Bytes that an entry does not cover.
  pub ram-store_entry : (x : ℕ) → (x < at) ⊎ (at + 24 ≤ x) → (store_entry at e k).ram x ≡ k.ram x
  unfolding store_entry
  ram-store_entry x off =
      ram-store32 (at + 20) e.reserved x k₃ (omega (arith, off))
      ∙ ram-store32 (at + 16) e.type x k₂ (omega (arith, off))
      ∙ ram-store64 (at + 8) e.length x k₁ (omega (arith, off))
      ∙ ram-store64 at e.base x k (omega (arith, off))

  pub store_entry-MemoryAlone : MemoryAlone k (store_entry at e k)
  unfolding store_entry
  store_entry-MemoryAlone =
      MemoryAlone-trans k k₂ (store_entry at e k)
        (MemoryAlone-trans k k₁ k₂ (store64-MemoryAlone at e.base k)
          (store64-MemoryAlone (at + 8) e.length k₁))
        (MemoryAlone-trans k₂ k₃ (store_entry at e k) (store32-ram (at + 16) e.type k₂)
          (store32-ram (at + 20) e.reserved k₃))

  -- A word in front of the last two fields.
  front : (addr : ℕ) → addr + 4 ≤ at + 16 → load32 addr (store_entry at e k) ≡ load32 addr k₂
  unfolding store_entry
  front addr h =
      load32-store32_ne addr (at + 20) e.reserved k₃ (omega (arith, h))
      ∙ load32-store32_ne addr (at + 16) e.type k₂ (omega (arith, h))

  base_word : (addr : ℕ) → addr + 4 ≤ at + 8 → load32 addr (store_entry at e k) ≡ load32 addr k₁
  base_word addr h =
      front addr (omega (arith, h)) ∙ load32-store64_ne addr (at + 8) e.length k₁ (omega (arith, h))

  pub entry_at-store_entry : IsEntry e → entry_at at (store_entry at e k) ≡ e
  unfolding store_entry
  entry_at-store_entry w =
      let base : load64 at (store_entry at e k) ≡ e.base =
        ap₂ (λ (a b : ℕ). a + b * 2 ^ 32) (base_word at (omega arith))
          (base_word (at + 4) (omega arith))
        ∙ load64-store64 at e.base k w.base in
      let length : load64 (at + 8) (store_entry at e k) ≡ e.length =
        ap₂ (λ (a b : ℕ). a + b * 2 ^ 32) (front (at + 8) (omega arith))
          (front (at + 8 + 4) (omega arith))
        ∙ load64-store64 (at + 8) e.length k₁ w.length in
      let type : load32 (at + 16) (store_entry at e k) ≡ e.type =
        load32-store32_ne (at + 16) (at + 20) e.reserved k₃ (omega arith)
        ∙ load32-store32 (at + 16) e.type k₂
        ∙ omega (arith, w.type) in
      let reserved : load32 (at + 20) (store_entry at e k) ≡ e.reserved =
        load32-store32 (at + 20) e.reserved k₃ ∙ omega (arith, w.reserved) in
      λ i. record { base = base i; length = length i; type = type i; reserved = reserved i }

load32-same :
    (a : ℕ) (k k' : Kernel)
    → ((x : ℕ) → a ≤ x → x < a + 4 → k'.ram x ≡ k.ram x)
    → load32 a k' ≡ load32 a k
load32-same a k k' same =
    rw
      (
        same a (omega arith) (omega arith),
        same (a + 1) (omega arith) (omega arith),
        same (a + 2) (omega arith) (omega arith),
        same (a + 3) (omega arith) (omega arith),
      )
      refl

-- The kernel reads an entry from its 24 bytes alone.
pub entry_at-same :
    (at : ℕ) (k k' : Kernel)
    → ((x : ℕ) → at ≤ x → x < at + 24 → k'.ram x ≡ k.ram x)
    → entry_at at k' ≡ entry_at at k
entry_at-same at k k' same =
    let word = λ (o : ℕ) (h : o + 4 ≤ 24).
      load32-same (at + o) k k'
        (λ x low high. same x (omega (arith, low)) (omega (arith, high, h))) in
    let first : load32 at k' ≡ load32 at k =
      load32-same at k k' (λ x low high. same x low (omega (arith, high))) in
    rw
      (
        first,
        word 4 (omega arith),
        word 8 (omega arith),
        load32-same (at + 8 + 4) k k'
            (λ x low high. same x (omega (arith, low)) (omega (arith, high))),
        word 16 (omega arith),
        word 20 (omega arith),
      )
      refl

pub entries_from-same :
    (n i : ℕ) (k k' : Kernel)
    → ((x : ℕ) → 0x5000 + 24 * i ≤ x → x < 0x5000 + 24 * (i + n) → k'.ram x ≡ k.ram x)
    → entries_from n i k' ≡ entries_from n i k
unfolding entries_from
entries_from-same zero i k k' same = refl
entries_from-same (suc n) i k k' same =
    ap₂ (λ (e : E820Entry) (es : List E820Entry). e ∷ es)
      (entry_at-same (0x5000 + 24 * i) k k' (λ x low high. same x low (omega (arith, high))))
      (entries_from-same n (i + 1) k k'
        (λ x low high. same x (omega (arith, low)) (omega (arith, high))))
