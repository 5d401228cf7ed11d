-- ===== src/PageFault.antt =====
-- kernel/memory/page_fault.c: the page fault handler, with demand paging for the heap and the stack.
pub mod Supply
pub mod Handler
pub mod Failures
pub mod Access
pub mod Isr
pub mod Virtual
mod Tests
use kernel_v.Base.{
  ℕ, ◌+◌, ◌-◌, ◌*◌, ◌/◌, ◌%◌, ◌^◌, List, [], ◌∷◌, Bool, not, ◌&&◌, Option, none, some, u8, update,
  sub32, bit_and, bit_or, for_range, leb, ltb, ◌==◌, if◌then◌else◌, codes, false,
}
use kernel_v.Kernel.{Kernel, say}
use kernel_v.Panik.{Diag, Outcome, returns, halts, panik}
use kernel_v.Paging.{paging_map_page, page_present, page_write}
use kernel_v.Paging.Virtual.{store_virtual}
use kernel_v.Pmm.{page_size, pmm_alloc_frame}
use kernel_v.Printk.Format.{Arg, word}

abbrev pub kernel_heap_start : ℕ
kernel_heap_start = 0xC1000000

abbrev pub kernel_heap_end : ℕ
kernel_heap_end = 0xC2000000

abbrev pub kernel_stack_top_virt : ℕ
kernel_stack_top_virt = 0xC3000000

abbrev pub kernel_stack_bottom_virt : ℕ
kernel_stack_bottom_virt = kernel_stack_top_virt - 0x10000

pub record PageFaultStack : Type 0 where
  pub ds : ℕ
  pub edi : ℕ
  pub esi : ℕ
  pub ebp : ℕ
  pub esp : ℕ
  pub ebx : ℕ
  pub edx : ℕ
  pub ecx : ℕ
  pub eax : ℕ
  pub int_no : ℕ
  pub error_code : ℕ
  pub eip : ℕ
  pub cs : ℕ
  pub eflags : ℕ
  pub useresp : ℕ
  pub ss : ℕ

-- The handler returns to the code that faulted, stays in a loop of `hlt`, or faults itself.
pub data Handled : Type 0 where
  resumes stops faults : Kernel → Handled

pub of_outcome : Outcome Kernel → Handled
of_outcome (returns k) = resumes k
of_outcome (halts k) = stops k

-- `vga[i] = cell` on the screen's memory.
pub set_cell : (i cell : ℕ) → (ℕ → ℕ) → ℕ → ℕ
set_cell i cell m = update (update m (i * 2) (u8 cell)) (i * 2 + 1) (u8 (cell / 2 ^ 8))

pub write_message : List ℕ → ℕ → (ℕ → ℕ) → ℕ → ℕ
write_message [] i m = m
write_message (c ∷ msg) i m = write_message msg (i + 1) (set_cell i (bit_or 0x4F00 c) m)

pub overflow_screen : (ℕ → ℕ) → ℕ → ℕ
overflow_screen m =
    write_message (codes "STACK OVERFLOW DETECTED!") 0
      (for_range (80 * 25) 0 (λ i. set_cell i 0x4F20) m)

abbrev pub set_vram : (ℕ → ℕ) → Kernel → Kernel
set_vram m k = record k {
  diag = record k.diag {
    console = record k.diag.console { screen = record k.diag.console.screen { vram = m } };
  };
}

-- With a new frame, or after the panic for want of one, the faulting page is mapped.
pub supply : Outcome Diag → (fault_address new_frame : ℕ) → Kernel → Handled
supply (returns d) fault_address new_frame k = of_outcome (
    paging_map_page fault_address new_frame (bit_or page_present page_write)
      (record k { diag = d }))
supply (halts d) fault_address new_frame k = stops (record k { diag = d })

pub with_frame : List ℕ → List Arg → (fault_address : ℕ) → ℕ × Kernel → Handled
with_frame fmt args fault_address (new_frame, k) =
    if new_frame == 0
    then supply (panik fmt args k.diag) fault_address new_frame k
    else of_outcome (paging_map_page fault_address new_frame (bit_or page_present page_write) k)

-- What each bit of the error code is reported as.
pub say_if : Bool → List ℕ → Kernel → Kernel
say_if asked fmt k = if asked then say fmt [] k else k

abbrev pub has_bit : ℕ → ℕ → Bool
has_bit flag error_code = not (bit_and error_code flag == 0)

pub say_error_code : ℕ → Kernel → Kernel
say_error_code error_code k =
    let k₁ = say_if (not (has_bit 0x1 error_code)) (codes "[PAGE FAULT] Page not present.\n") k in
    let k₂ = say_if (has_bit 0x2 error_code) (codes "[PAGE FAULT] Write access.\n") k₁ in
    let k₃ = say_if (has_bit 0x4 error_code) (codes "[PAGE FAULT] User mode access.\n") k₂ in
    let k₄ = say_if (has_bit 0x8 error_code) (codes "[PAGE FAULT] Reserved bit set.\n") k₃ in
    say_if (has_bit 0x10 error_code) (codes "[PAGE FAULT] Instruction fetch.\n") k₄

abbrev pub stack_growth_gap : ℕ
stack_growth_gap = 32

abbrev pub in_guard_page : ℕ → Bool
in_guard_page a = leb kernel_stack_bottom_virt a && ltb a (kernel_stack_bottom_virt + page_size)

abbrev pub in_heap : ℕ → Bool
in_heap a = leb kernel_heap_start a && ltb a kernel_heap_end

-- Both tests of the stack's branch; the subtraction is one of `uint32_t`.
abbrev pub grows_stack : (fault_address esp : ℕ) → Bool
grows_stack a esp =
    (leb (kernel_stack_bottom_virt + page_size) a && ltb a kernel_stack_top_virt)
    && (leb (sub32 esp stack_growth_gap) a && ltb a esp)

abbrev pub announce : PageFaultStack → (fault_address esp ebp : ℕ) → Kernel → Kernel
announce frame a esp ebp k =
    say (codes "[PAGE FAULT] at address: 0x%x, error code: 0x%x [eip=0x%x, esp=0x%x, ebp=0x%x]\n")
      (word a ∷ word frame.error_code ∷ word frame.eip ∷ word esp ∷ word ebp ∷ []) k

-- The branches of the heap and of the stack.
pub grow_heap : (fault_address : ℕ) → Kernel → Handled
grow_heap a k =
    let k₁ =
      say
        (codes "[PAGE FAULT] Address within kernel heap region: allocating and mapping new page.\n")
        [] k in
    with_frame (codes "Out of memory: Unable to allocate frame for page fault at address 0x%x")
      (word a ∷ []) a (pmm_alloc_frame k₁)

pub grow_stack : PageFaultStack → (fault_address : ℕ) → Kernel → Handled
grow_stack frame a k =
    let k₁ =
      say (codes "[PF] Stack growth: mapping new stack page at 0x%x (esp=0x%x)\n")
        (word a ∷ word frame.esp ∷ []) k in
    with_frame (codes "Out of memory in stack PF recovery") [] a (pmm_alloc_frame k₁)

-- The handler from its first `printk` on; `esp` and `ebp` are the registers in the handler.
pub dispatch : PageFaultStack → (fault_address esp ebp : ℕ) → Kernel → Handled
dispatch frame a esp ebp k =
    let k₁ = announce frame a esp ebp k in
    if in_heap a
    then grow_heap a k₁
    else (if grows_stack a frame.esp
        then grow_stack frame a k₁
        else stops (say_error_code frame.error_code k₁))

-- After the guard page's branch the handler goes on, unless the store through the null pointer
-- faults.
unfoldable pub after_store : (Kernel → Handled) → Kernel → Option Kernel → Handled
after_store next k none = faults k
after_store next k (some k') = next k'

pub page_fault_handler : PageFaultStack → (fault_address esp ebp : ℕ) → Kernel → Handled
page_fault_handler frame a esp ebp k =
    let k₁ = record k { diag = record k.diag { interrupts = false } } in
    let k₂ = set_vram (overflow_screen k₁.diag.console.screen.vram) k₁ in
    if in_guard_page a
    then after_store (dispatch frame a esp ebp) k₂ (store_virtual 0x00000000 123 k₂)
    else dispatch frame a esp ebp k₁
