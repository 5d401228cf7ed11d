-- ===== src/Boot/Overflow.antt =====
-- `test_stack_overflow` of kernel/main/kernel.c, which calls itself until the stack is used up.
pub mod Guarded
use kernel_v.Base.{
  ℕ, zero, suc, ◌+◌, List, [], ◌∷◌, Bool, leb, sub32, if◌then◌else◌, codes, Option, none, some,
}
use kernel_v.Kernel.{Kernel, say}
use kernel_v.PageFault.{kernel_stack_bottom_virt}
use kernel_v.Paging.Walk.{walk}
use kernel_v.Pmm.{page_size}
use kernel_v.Printk.Format.{word}

-- The calls end at a level whose part of the stack is not mapped, with its depth and its stack
-- pointer, or they are deeper than the rounds.
pub data Descent : Type 0 where
  overflows : (depth esp : ℕ) → Kernel → Descent
  deeper : Descent

pub near_guard : (current_esp : ℕ) → Bool
near_guard current_esp = leb current_esp (kernel_stack_bottom_virt + page_size + 0x1000)

-- What a level reports before it calls the next.
pub stack_level : (depth current_esp : ℕ) → Kernel → Kernel
stack_level depth current_esp k =
    let k₁ = say (codes "Stack depth: %d, ESP=0x%08x\n") (word depth ∷ word current_esp ∷ []) k in
    let k₂ =
      say (codes "WARNING: Approaching guard page at 0x%08x!\n")
        (word kernel_stack_bottom_virt ∷ []) k₁ in
    let k₃ =
      say (codes "Current ESP: 0x%08x, Guard page: 0x%08x\n")
        (word current_esp ∷ word kernel_stack_bottom_virt ∷ []) k₂ in
    if near_guard current_esp then k₃ else k₁

pub at_touch : (absent present : Descent) → Option ℕ → Descent
at_touch absent present none = absent
at_touch absent present (some pte) = present

-- The compiler chooses `frame_size`, by which a call moves the stack pointer down, and `reach`, how
-- far below it the calls of `printk` go. What the stack holds is left out: a level needs its lowest
-- byte mapped, and the one that has it not ends the run, with no part of it done.
module _ (frame_size reach : ℕ) where
  pub test_stack_overflow : (rounds depth esp : ℕ) → Kernel → Descent
  test_stack_overflow zero depth esp k = deeper
  test_stack_overflow (suc rounds) depth esp k =
      let rest =
        test_stack_overflow rounds (depth + 1) (sub32 esp frame_size) (stack_level depth esp k) in
      at_touch (overflows depth esp k) rest (walk k (sub32 esp reach))
