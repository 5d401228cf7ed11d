-- ===== src/PageFault/Isr.antt =====
-- kernel/arch/x86/isr_page_fault.asm: the words that it leaves on the stack for the handler of
-- kernel/memory/page_fault.c, and how the handler's struct reads them.
use kernel_v.Base.{ℕ, zero, suc, ◌+◌, ◌^◌, ◌≤◌, ◌<◌, ◌≡◌, ◌⊎◌, refl, List, [], ◌∷◌, false}
use kernel_v.Kernel.{Kernel}
use kernel_v.PageFault.{PageFaultStack, page_fault_handler, stops}
use kernel_v.PageFault.Failures.{off_pointer, page_fault_handler_stray}

-- What the processor pushes for a page fault in the kernel, and the registers at that time.
pub record Interrupted : Type 0 where
  pub gs : ℕ
  pub fs : ℕ
  pub es : ℕ
  pub ds : ℕ
  pub edi : ℕ
  pub esi : ℕ
  pub ebp : ℕ
  pub esp : ℕ
  pub ebx : ℕ
  pub edx : ℕ
  pub ecx : ℕ
  pub eax : ℕ
  pub error_code : ℕ
  pub eip : ℕ
  pub cs : ℕ
  pub eflags : ℕ

-- The stack from its pointer up, after `pusha` and the four pushes of segments.
pub pushed : Interrupted → List ℕ
pushed r =
    r.gs ∷ r.fs ∷ r.es ∷ r.ds ∷ r.edi ∷ r.esi ∷ r.ebp ∷ r.esp ∷ r.ebx ∷ r.edx ∷ r.ecx ∷ r.eax
    ∷ r.error_code ∷ r.eip ∷ r.cs ∷ r.eflags ∷ []

-- The word at an index; what lies above the list is left open as 0.
word_at : ℕ → List ℕ → ℕ
word_at i [] = 0
word_at zero (w ∷ words) = w
word_at (suc i) (w ∷ words) = word_at i words

-- `(page_fault_stack_t*) esp`
pub frame_at : List ℕ → PageFaultStack
frame_at words = record {
  ds = word_at 0 words;
  edi = word_at 1 words;
  esi = word_at 2 words;
  ebp = word_at 3 words;
  esp = word_at 4 words;
  ebx = word_at 5 words;
  edx = word_at 6 words;
  ecx = word_at 7 words;
  eax = word_at 8 words;
  int_no = word_at 9 words;
  error_code = word_at 10 words;
  eip = word_at 11 words;
  cs = word_at 12 words;
  eflags = word_at 13 words;
  useresp = word_at 14 words;
  ss = word_at 15 words;
}

pub frame_at-pushed :
    (r : Interrupted)
    → let frame = frame_at (pushed r) in
      (frame.esp ≡ r.edi) × (frame.error_code ≡ r.ecx) × (frame.eip ≡ r.eax)
unfolding frame_at pushed word_at
frame_at-pushed r = (refl, refl, refl)

-- On the stack that the entry code of the page fault leaves, the struct of the handler reads the
-- saved `edi` as the stack pointer, `ecx` as the error code and `eax` as the faulting instruction. So
-- a fault in the stack above its guard page stops the machine, however close below the stack pointer
-- it lies, unless it lies within 32 bytes below `edi`.
pub isr_page_fault_stack :
    (r : Interrupted) (a esp ebp : ℕ) (k : Kernel)
    → 0xC2FF1000 ≤ a
    → r.edi < 2 ^ 32
    → (a + 32 < r.edi) ⊎ (r.edi ≤ a)
    → let frame = frame_at (pushed r) in
      ((frame.esp ≡ r.edi) × (frame.error_code ≡ r.ecx) × (frame.eip ≡ r.eax))
      × ((k' : Kernel) × (page_fault_handler frame a esp ebp k ≡ stops k')
          × (k' ≡ record k { diag = k'.diag })
          × (k'.diag.interrupts ≡ false))
unfolding frame_at pushed word_at
isr_page_fault_stack r a esp ebp k above word_edi off = (
  frame_at-pushed r,
  page_fault_handler_stray (frame_at (pushed r)) a esp ebp k (off_pointer above word_edi off),
)
