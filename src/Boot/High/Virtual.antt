-- ===== src/Boot/High/Virtual.antt =====
-- `kernel_main` and `high_stack_entry` of kernel/main/kernel.c one after the other, with the accesses
-- to the directory and the tables made through the tables.
use kernel_v.Base.{ℕ, ◌+◌, ◌<◌, ◌≤◌, ◌≡◌, ap, sym, subst, ◌∙◌, refl, arith, some, [], take}
use kernel_v.Boot.{Stage, goes}
use kernel_v.Boot.High.{before_heap, after_heap, heap_ptr, high_stack_entry, store_faulting}
use kernel_v.Boot.High.Heap.{before_heap-Said}
use kernel_v.Boot.Main.{Image, Machine, kernel_main}
use kernel_v.Boot.Main.Booted.{Booted, kernel_main-Booted}
use kernel_v.Boot.Main.Framed.{withheld}
use kernel_v.Boot.Main.Frames.{Roomy}
use kernel_v.Boot.Main.Virtual.{kernel_main_virtual, kernel_main_virtual-Left}
use kernel_v.Kernel.{Kernel}
use kernel_v.MemoryMap.Usable.{available}
use kernel_v.PageFault.{Handled, resumes, PageFaultStack, after_store}
use kernel_v.PageFault.Access.{access, then_resume, at_mapping}
use kernel_v.PageFault.Virtual.{page_fault_handler_virtual, page_fault_handler_virtual_lem}
use kernel_v.Panik.{normal}
use kernel_v.Paging.Virtual.{store_virtual}
use kernel_v.Paging.Virtual.Demand.{Reaches, Reaches-diag}
use kernel_v.Paging.Walk.{walk}
use kernel_v.Pmm.{max_frame}
use kernel_v.Pmm.Bitmap.{used}
use kernel_v.Pmm.Reserve.{count_free}
use kernel_v.Pmm.Supply.{count_free_two}

pub store_faulting_virtual : PageFaultStack → (esp ebp addr value : ℕ) → Kernel → Handled
store_faulting_virtual frame esp ebp addr value k =
    then_resume (λ k'. after_store resumes k' (store_virtual addr value k'))
      (at_mapping (page_fault_handler_virtual frame addr esp ebp k) (resumes k) (walk k addr))

pub high_stack_entry_virtual : PageFaultStack → (esp ebp cur_esp tss_cr3 : ℕ) → Kernel → Handled
high_stack_entry_virtual frame esp ebp cur_esp tss_cr3 k =
    then_resume (λ k'. resumes (after_heap tss_cr3 k'))
      (store_faulting_virtual frame esp ebp heap_ptr 42 (before_heap cur_esp k))

high_same :
    (frame : PageFaultStack) (esp ebp cur_esp tss_cr3 : ℕ) (k : Kernel)
    → Reaches heap_ptr k
    → high_stack_entry_virtual frame esp ebp cur_esp tss_cr3 k
      ≡ high_stack_entry frame esp ebp cur_esp tss_cr3 k
unfolding high_stack_entry_virtual high_stack_entry store_faulting_virtual store_faulting access
high_same frame esp ebp cur_esp tss_cr3 k e =
    let k' : Kernel = before_heap cur_esp k in
    let said = before_heap-Said cur_esp k in
    let e' : Reaches heap_ptr k' =
      subst (Reaches heap_ptr) (sym said.kept)
        (Reaches-diag heap_ptr k'.diag k (said.mode ∙ e.safe.mode) e) in
    rw (page_fault_handler_virtual_lem frame heap_ptr esp ebp k' e' (omega arith)) refl

of_goes : Machine → Stage Machine → Machine
of_goes m (goes m') = m'
of_goes m s = m

one_machine : (m' m'' : Machine) → goes m' ≡ goes m'' → m' ≡ m''
unfolding of_goes
one_machine m' m'' e = ap (of_goes m') e

-- From a kernel in normal mode with no region known and no frame index, and a memory map with room for
-- the stack as `Roomy` says: where 34 frames of those from 1 to `l`, which lie in the first 4 MB and
-- below the end of the regions, are withheld by nothing, and the bitmap ends below the stack, the start with the accesses for the stack's
-- mapping made through the tables does not fault, and leaves the machine that the start on memory
-- leaves, as `Booted` says. On it `high_stack_entry`, with the accesses of the page fault handler to the
-- tables made through the tables too, ends as it does on memory.
pub high_stack_entry_virtual_lem :
    (frame : PageFaultStack) (esp ebp cur_esp tss_cr3 n l : ℕ) (image : Image) (m : Machine)
    → m.kernel.diag.current_panik_mode ≡ normal
    → m.kernel.usable_memory_region ≡ []
    → m.kernel.max_frame_idx ≡ 0
    → Roomy (30 + n) image (take 32 (available image.e820_map))
    → l < 1024
    → l < max_frame (take 32 (available image.e820_map)) 0
    → 34 ≤ count_free (withheld image (take 32 (available image.e820_map))) l 1
    → (m' : Machine) × (kernel_main_virtual image m ≡ some (goes m'))
      × (kernel_main image m ≡ goes m')
      × Booted n image m m'
      × (high_stack_entry_virtual frame esp ebp cur_esp tss_cr3 m'.kernel
          ≡ high_stack_entry frame esp ebp cur_esp tss_cr3 m'.kernel)
high_stack_entry_virtual_lem frame esp ebp cur_esp tss_cr3 n l image m mode empty start room low top
      enough =
    let left = kernel_main_virtual-Left n l image m mode empty start room low top (omega arith) in
    let m' : Machine = left.0 in
    let b = kernel_main-Booted n image m mode empty start room in
    let booted : Booted n image m m' =
      subst (Booted n image m) (one_machine b.0 m' (sym b.1 ∙ left.1.on_memory)) b.2 in
    let two = count_free_two (used m'.kernel) l 1 (omega (arith, enough, left.1.spared l top)) in
    (
      m',
      left.1.through,
      left.1.on_memory,
      booted,
      high_same frame esp ebp cur_esp tss_cr3 m'.kernel (record {
        safe = booted.safe;
        identity = booted.identity;
        below = left.1.below;
        rooms = λ even. (two.0, two.1, two.2, omega (arith, two.3, low), two.4, two.5);
      }),
    )
