-- ===== src/Kernel.antt =====
-- The state that the memory management of kernel/memory works on, and its messages.
pub mod Said
use kernel_v.Base.{ℕ, List, u8, update}
use kernel_v.MemoryMap.{MemoryRegion}
use kernel_v.Panik.{Diag}
use kernel_v.Printk.{printk}
use kernel_v.Printk.Format.{Arg}

-- `ram` is the physical memory by the byte; the rest are the static variables of pmm.c and
-- memory_map.c, and the control registers that paging.c writes.
pub record Kernel : Type 0 where
  pub diag : Diag
  pub ram : ℕ → ℕ
  pub usable_memory_region : List MemoryRegion
  pub frame_bitmap : ℕ
  pub total_frames : ℕ
  pub used_frames : ℕ
  pub max_frame_idx : ℕ
  pub cr0 : ℕ
  pub cr3 : ℕ

-- A call of `printk` for its message alone.
abbrev pub say : List ℕ → List Arg → Kernel → Kernel
say fmt args k = record k { diag = record k.diag { console = (printk fmt args k.diag.console).1 } }

-- A store of one byte.
abbrev pub store8 : ℕ → ℕ → Kernel → Kernel
store8 addr v k = record k { ram = update k.ram addr (u8 v) }
