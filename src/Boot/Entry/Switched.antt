-- ===== src/Boot/Entry/Switched.antt =====
-- The call of `switch_to_high_stack` at the end of `kernel_main`, kernel/main/kernel.c.
use kernel_v.Base.{
  ℕ, suc, ◌+◌, ◌*◌, ◌/◌, ◌^◌, ◌≤◌, ◌<◌, ◌≡◌, ◌⊎◌, refl, ap, ◌∙◌, arith, some, sub32, u32, inr, true,
}
use kernel_v.Boot.Entry.{Registers, push, call_with, switch_to_high_stack}
use kernel_v.Boot.Main.{Image, Machine, new_stack_ptr}
use kernel_v.Boot.Main.Booted.{Booted}
use kernel_v.Kernel.{Kernel}
use kernel_v.Paging.{page_directory}
use kernel_v.Paging.Data.{loaded-stored, IsData-stored, walk-stored}
use kernel_v.Paging.Mapping.{IsData}
use kernel_v.Paging.Memory.{load32, store32, load32-store32, load32-store32_ne, ram-store32}
use kernel_v.Paging.Virtual.{store_virtual, store_mapped}
use kernel_v.Paging.Virtual.Same.{Identity, Identity-same, load_identity, store_identity}
use kernel_v.Paging.Walk.{walk}
use kernel_v.Pmm.Bitmap.{used}

-- The page of the first stack can be written: it is mapped to itself, and no table stands in it.
record OldStack (k : Kernel) : Type 0 where
  loaded : k.cr3 ≡ page_directory
  identity : Identity k
  no_table : IsData k 0x9F

module _ (j value : ℕ) (k : Kernel) (h : j < 1024) (o : OldStack k) where
  abbrev with_store : Kernel
  with_store = store32 (0x9F * 4096 + 4 * j) value k

  walk-with_store : (w : ℕ) → w < 2 ^ 32 → walk with_store w ≡ walk k w
  walk-with_store = walk-stored 0x9F j value k o.loaded (omega arith) o.no_table h

  with_store-OldStack : OldStack with_store
  with_store-OldStack = record {
    loaded = loaded-stored 0x9F j value k o.loaded (omega arith) o.no_table h;
    identity = Identity-same k with_store walk-with_store o.identity;
    no_table = IsData-stored 0x9F j value k o.loaded (omega arith) o.no_table h;
  }

  push_lem : push value (0x9F * 4096 + 4 * suc j) k ≡ some (0x9F * 4096 + 4 * j, with_store)
  unfolding push
  push_lem =
      let at : sub32 (0x9F * 4096 + 4 * suc j) 4 ≡ 0x9F * 4096 + 4 * j = omega (arith, h) in
      rw (at, store_identity (0x9F * 4096 + 4 * j) k o.identity (omega (arith, h)) value) refl

abbrev at : ℕ → ℕ
at j = 0x9F * 4096 + 4 * j

-- The three words of the call.
module _ (j function first second return_address : ℕ) (k : Kernel) (h : suc (suc j) < 1024)
    (o : OldStack k) where
  abbrev k₁ : Kernel
  k₁ = with_store (suc (suc j)) second k h o

  o₁ : OldStack k₁
  o₁ = with_store-OldStack (suc (suc j)) second k h o

  abbrev k₂ : Kernel
  k₂ = with_store (suc j) first k₁ (omega (arith, h)) o₁

  o₂ : OldStack k₂
  o₂ = with_store-OldStack (suc j) first k₁ (omega (arith, h)) o₁

  abbrev called : Kernel
  called = with_store j return_address k₂ (omega (arith, h)) o₂

  o₃ : OldStack called
  o₃ = with_store-OldStack j return_address k₂ (omega (arith, h)) o₂

  walk-called : (w : ℕ) → w < 2 ^ 32 → walk called w ≡ walk k w
  walk-called w hw =
      walk-with_store j return_address k₂ (omega (arith, h)) o₂ w hw
      ∙ walk-with_store (suc j) first k₁ (omega (arith, h)) o₁ w hw
      ∙ walk-with_store (suc (suc j)) second k h o w hw

  ram-called : (x : ℕ) → (x < at j) ⊎ (at j + 12 ≤ x) → called.ram x ≡ k.ram x
  ram-called x off =
      ram-store32 (at j) return_address x k₂ (omega (arith, off))
      ∙ ram-store32 (at (suc j)) first x k₁ (omega (arith, off))
      ∙ ram-store32 (at (suc (suc j))) second x k (omega (arith, off))

  call_lem :
      call_with function first second return_address (at (suc (suc (suc j)))) k
      ≡ some (record { esp = at j; eip = function }, called)
  unfolding call_with
  call_lem =
      rw
        (
          push_lem (suc (suc j)) second k h o,
          push_lem (suc j) first k₁ (omega (arith, h)) o₁,
          push_lem j return_address k₂ (omega (arith, h)) o₂,
        )
        refl

  second_word : load32 (at j + 8) called ≡ u32 second
  second_word =
      let place : at j + 8 ≡ at (suc (suc j)) = omega arith in
      load32-store32_ne (at j + 8) (at j) return_address k₂ (inr (omega arith))
      ∙ load32-store32_ne (at j + 8) (at (suc j)) first k₁ (inr (omega arith))
      ∙ ap (λ (a : ℕ). load32 a k₁) place
      ∙ load32-store32 (at (suc (suc j))) second k

  first_word : load32 (at j + 4) called ≡ u32 first
  first_word =
      let place : at j + 4 ≡ at (suc j) = omega arith in
      load32-store32_ne (at j + 4) (at j) return_address k₂ (inr (omega arith))
      ∙ ap (λ (a : ℕ). load32 a k₂) place
      ∙ load32-store32 (at (suc j)) first k₁

  switch_lem :
      switch_to_high_stack (record { esp = at j; eip = function }) called
      ≡ some (record { esp = u32 first; eip = u32 second })
  unfolding switch_to_high_stack
  switch_lem =
      rw
        (
          load_identity (at j + 8) called o₃.identity (omega (arith, h)),
          load_identity (at j + 4) called o₃.identity (omega (arith, h)),
          first_word,
          second_word,
        )
        refl

-- The first push on the new stack.
first_push :
    (value f : ℕ) (k : Kernel)
    → walk k 0xC2FFFFEC ≡ some (f * 4096 + 3)
    → push value new_stack_ptr k ≡ some (0xC2FFFFEC, store32 (f * 4096 + 0xFEC) value k)
unfolding push store_virtual store_mapped
first_push value f k mapped =
    let page : (f * 4096 + 3) / 4096 * 4096 ≡ f * 4096 = omega arith in rw (mapped, page) refl

-- On a machine as `kernel_main` leaves it, with the stack pointer at a multiple of 4 in the page that
-- ends at 0xA0000, where `_start` puts it, and three words left in it: the call of
-- `switch_to_high_stack` and its three instructions do not fault. They end at the entry that was given,
-- with the stack pointer 16 bytes below 0xC3000000; every address of 32 bits is mapped as before, and no
-- byte but the twelve of the call was written. The next push is made in the used frame that backs the stack's
-- last page.
pub switch_to_high_stack_lem :
    (n : ℕ) (image : Image) (m m' : Machine) (j function entry return_address : ℕ)
    → Booted n image m m'
    → suc (suc j) < 1024
    → entry < 2 ^ 32
    → (r : Registers) × (k : Kernel) × (call_with function new_stack_ptr entry return_address
          (0x9F000 + 4 * (j + 3))
          m'.kernel
        ≡ some (r, k))
      × (switch_to_high_stack r k ≡ some (record { esp = new_stack_ptr; eip = entry }))
      × ((w : ℕ) → w < 2 ^ 32 → walk k w ≡ walk m'.kernel w)
      × ((x : ℕ) → (x < 0x9F000 + 4 * j) ⊎ (0x9F000 + 4 * j + 12 ≤ x) → k.ram x ≡ m'.kernel.ram x)
      × ((f : ℕ) × (used m'.kernel f ≡ true)
          × ((value : ℕ)
              → push value new_stack_ptr k ≡ some (0xC2FFFFEC, store32 (f * 4096 + 0xFEC) value k)))
switch_to_high_stack_lem n image m m' j function entry return_address booted h word_entry =
    let k₀ : Kernel = m'.kernel in
    let o : OldStack k₀ = record {
      loaded = booted.safe.tables.loaded;
      identity = booted.identity;
      no_table = booted.low_data 0x9F (omega arith) (omega arith);
    } in
    let k : Kernel = called j function new_stack_ptr entry return_address k₀ h o in
    let page = booted.stack 0xC2FFFFEC (omega arith) (omega arith) in
    let top : 0x9F000 + 4 * (j + 3) ≡ at (suc (suc (suc j))) = omega arith in
    let word : u32 entry ≡ entry = omega (arith, word_entry) in
    (
      record { esp = at j; eip = function },
      k,
      ap (λ (a : ℕ). call_with function new_stack_ptr entry return_address a k₀) top
          ∙ call_lem j function new_stack_ptr entry return_address k₀ h o,
      switch_lem j function new_stack_ptr entry return_address k₀ h o
          ∙ ap (λ (e : ℕ). some (record { esp = new_stack_ptr; eip = e })) word,
      walk-called j function new_stack_ptr entry return_address k₀ h o,
      λ x off.
          ram-called j function new_stack_ptr entry return_address k₀ h o x (omega (arith, off)),
      (
        page.0,
        page.2,
        λ value. first_push value page.0 k (
            walk-called j function new_stack_ptr entry return_address k₀ h o 0xC2FFFFEC
              (omega arith)
            ∙ page.3),
      ),
    )
