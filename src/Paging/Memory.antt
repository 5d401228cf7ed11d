-- ===== src/Paging/Memory.antt =====
-- Words of 32 bits in memory, as the stores of kernel/memory/paging.c write them.
use kernel_v.Base.{ℕ, ◌+◌, ◌*◌, ◌/◌, ◌^◌, ◌≤◌, ◌<◌, ◌≡◌, ◌⊎◌, refl, arith, u8, u32}
use kernel_v.Kernel.{Kernel, store8}

-- A word is stored lowest byte first.
abbrev pub load32 : ℕ → Kernel → ℕ
load32 addr k =
    u8 (k.ram addr)
    + u8 (k.ram (addr + 1)) * 2 ^ 8
    + u8 (k.ram (addr + 2)) * 2 ^ 16
    + u8 (k.ram (addr + 3)) * 2 ^ 24

pub store32 : ℕ → ℕ → Kernel → Kernel
store32 addr v k =
    store8 (addr + 3) (v / 2 ^ 24)
      (store8 (addr + 2) (v / 2 ^ 16) (store8 (addr + 1) (v / 2 ^ 8) (store8 addr v k)))

pub load32-store32 : (addr v : ℕ) (k : Kernel) → load32 addr (store32 addr v k) ≡ u32 v
unfolding store32
load32-store32 addr v k = ground arith

pub load32-store32_ne :
    (addr at v : ℕ) (k : Kernel)
    → (addr + 4 ≤ at) ⊎ (at + 4 ≤ addr)
    → load32 addr (store32 at v k) ≡ load32 addr k
unfolding store32
load32-store32_ne addr at v k apart = ground arith

pub cr3-store32 : (addr v : ℕ) (k : Kernel) → (store32 addr v k).cr3 ≡ k.cr3
unfolding store32
cr3-store32 addr v k = refl

pub load32-lt : (addr : ℕ) (k : Kernel) → load32 addr k < 2 ^ 32
load32-lt addr k = omega arith

pub ram-store32 :
    (addr v x : ℕ) (k : Kernel) → (x < addr) ⊎ (addr + 4 ≤ x) → (store32 addr v k).ram x ≡ k.ram x
unfolding store32
ram-store32 addr v x k off = ground arith

-- A store changes memory alone.
pub store32-ram :
    (addr v : ℕ) (k : Kernel) → store32 addr v k ≡ record k { ram = (store32 addr v k).ram }
unfolding store32
store32-ram addr v k = refl
