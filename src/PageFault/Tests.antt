-- ===== src/PageFault/Tests.antt =====
-- kernel/memory/page_fault.c on concrete machines.
use kernel_v.Base.{
  refl, ◌∙◌, ℕ, ◌+◌, ◌*◌, ◌/◌, ◌<◌, ◌≤◌, ◌≡◌, ◌⊎◌, arith, [], ◌∷◌, false, none, some, inl, inr,
}
use kernel_v.Kernel.{Kernel}
use kernel_v.PageFault.{PageFaultStack, page_fault_handler, resumes, stops, faults}
use kernel_v.PageFault.Access.{access_all, access_all-Served, Served, AllMapped}
use kernel_v.PageFault.Failures.{page_fault_handler-Stopped, page_fault_handler_guard}
use kernel_v.PageFault.Handler.{heap, stack, page_fault_handler-Demanded}
use kernel_v.PageFault.Isr.{Interrupted, pushed, frame_at, isr_page_fault_stack}
use kernel_v.PageFault.Virtual.{page_fault_handler_virtual, page_fault_handler_virtual_lem}
use kernel_v.Paging.Low.{paging_init-IsLow}
use kernel_v.Paging.Start.{used-paging_init}
use kernel_v.Paging.Virtual.Demand.{Reaches}
use kernel_v.Paging.Virtual.Same.{paging_init-Identity}
use kernel_v.Paging.Demand.{Demanded}
use kernel_v.Paging.Identity.{paging_init-walk}
use kernel_v.Paging.Memory.{load32}
use kernel_v.Paging.Total.{Stopped}
use kernel_v.Paging.Walk.{walk}
use kernel_v.Samples.Started.{
  low_machine, started, started-IsSafe, started_left, full, full-IsSafe, none_left,
}

abbrev frame : PageFaultStack
frame = record {
  ds = 0x10;
  edi = 1;
  esi = 2;
  ebp = 3;
  esp = 0xC2FF8010;
  ebx = 4;
  edx = 5;
  ecx = 6;
  eax = 7;
  int_no = 14;
  error_code = 2;
  eip = 0x10234;
  cs = 0x08;
  eflags = 0x202;
  useresp = 0;
  ss = 0x10;
}

access_all-Served_example :
    (k' : Kernel) × (access_all frame 0x7000 0x7010
        (0xC1001234 ∷ 0xC1001238 ∷ 0xC1FFF000 ∷ [])
        started
      ≡ resumes k')
    × Served 3 started k'
    × AllMapped (0xC1001234 ∷ 0xC1001238 ∷ 0xC1FFF000 ∷ []) k'
access_all-Served_example =
    access_all-Served frame 0x7000 0x7010 (0xC1001234 ∷ 0xC1001238 ∷ 0xC1FFF000 ∷ []) started
      started-IsSafe
      (omega arith, omega arith, (omega arith, omega arith, (omega arith, omega arith, tt)))
      (omega (arith, started_left))

page_fault_handler-Demanded_example :
    (k' : Kernel) × (page_fault_handler frame 0xC2FF8004 0x7000 0x7010 started ≡ resumes k')
    × Demanded 0xC2FF8004 started k'
page_fault_handler-Demanded_example =
    page_fault_handler-Demanded frame 0xC2FF8004 0x7000 0x7010 started started-IsSafe
      (stack (omega arith) (omega arith) (omega arith) (omega arith) (omega arith))
      (inl (omega (arith, started_left)))

reached : Reaches 0xC1001234 started
reached =
    let free = λ (g : ℕ). used-paging_init low_machine g refl in
    record {
      safe = started-IsSafe;
      identity = paging_init-Identity low_machine;
      below = (paging_init-IsLow 1024 low_machine (omega arith) (omega arith)).below;
      rooms = λ even. (256, 257, omega arith, omega arith, free 256 ∙ refl, free 257 ∙ refl);
    }

page_fault_handler_virtual_lem_example :
    page_fault_handler_virtual frame 0xC1001234 0x7000 0x7010 started
    ≡ page_fault_handler frame 0xC1001234 0x7000 0x7010 started
page_fault_handler_virtual_lem_example =
    page_fault_handler_virtual_lem frame 0xC1001234 0x7000 0x7010 started reached (omega arith)

page_fault_handler-Stopped_example :
    (k' : Kernel) × (page_fault_handler frame 0xC1001234 0x7000 0x7010 full ≡ stops k')
    × Stopped full k'
page_fault_handler-Stopped_example =
    page_fault_handler-Stopped frame 0xC1001234 0x7000 0x7010 full full-IsSafe
      (heap (omega arith) (omega arith)) none_left

page_fault_handler_guard_example :
    (walk started 0 ≡ none
      → (k' : Kernel) × (page_fault_handler frame 0xC2FF0800 0x7000 0x7010 started ≡ faults k'))
    × ((pte : ℕ)
        → walk started 0 ≡ some pte
        → (k' : Kernel) × (page_fault_handler frame 0xC2FF0800 0x7000 0x7010 started ≡ stops k')
          × (load32 (pte / 4096 * 4096) k' ≡ 123)
          × ((x : ℕ)
              → (x < pte / 4096 * 4096) ⊎ (pte / 4096 * 4096 + 4 ≤ x)
              → k'.ram x ≡ started.ram x)
          × (k'.diag.interrupts ≡ false))
page_fault_handler_guard_example =
    page_fault_handler_guard frame 0xC2FF0800 0x7000 0x7010 started (omega arith) (omega arith)

-- The identity map is there at that address, and the second half applies.
null_page : walk started 0 ≡ some 7
null_page = (paging_init-walk 0 low_machine (omega arith)).2

abbrev interrupted : Interrupted
interrupted = record {
  gs = 0x10;
  fs = 0x10;
  es = 0x10;
  ds = 0x10;
  edi = 0x1000;
  esi = 0;
  ebp = 0xC2FF8100;
  esp = 0xC2FF8010;
  ebx = 0;
  edx = 0;
  ecx = 17;
  eax = 99;
  error_code = 2;
  eip = 0x10234;
  cs = 0x08;
  eflags = 0x202;
}

isr_page_fault_stack_example :
    (((frame_at (pushed interrupted)).esp ≡ 0x1000)
      × ((frame_at (pushed interrupted)).error_code ≡ 17)
      × ((frame_at (pushed interrupted)).eip ≡ 99))
    × ((k' : Kernel) × (page_fault_handler
            (frame_at (pushed interrupted))
            0xC2FF8004
            0x7000
            0x7010
            started
          ≡ stops k')
        × (k' ≡ record started { diag = k'.diag })
        × (k'.diag.interrupts ≡ false))
isr_page_fault_stack_example =
    isr_page_fault_stack interrupted 0xC2FF8004 0x7000 0x7010 started (omega arith) (omega arith)
      (inr (omega arith))
