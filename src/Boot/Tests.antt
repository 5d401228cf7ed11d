-- ===== src/Boot/Tests.antt =====
-- kernel/main/kernel.c on a concrete machine.
use kernel_v.Base.{
  [], ◌∷◌, ◌⊎◌, true, false, ℕ, ◌<◌, ◌≤◌, some, ◌+◌, ◌*◌, ◌^◌, ◌≡◌, refl, arith, none, u32,
}
use kernel_v.Boot.{goes, map_stack}
use kernel_v.Boot.High.{high_stack_entry}
use kernel_v.Boot.High.Heap.{Entered, high_stack_entry_lem}
use kernel_v.Boot.Overflow.{test_stack_overflow}
use kernel_v.Boot.Overflow.Guarded.{Overflown, test_stack_overflow-Overflown}
use kernel_v.Boot.Entry.{Registers, kernel_entry, call_with, push, switch_to_high_stack}
use kernel_v.Boot.Entry.Switched.{switch_to_high_stack_lem}
use kernel_v.Paging.Memory.{load32, store32}
use kernel_v.Pmm.Bitmap.{used}
use kernel_v.Boot.Main.{new_stack_ptr, Machine, kernel_main, gdt_at}
use kernel_v.Boot.Crumbs.{double_fault_handler}
use kernel_v.Boot.Crumbs.Found.{Crumbs, Marked, double_fault_handler_lem}
use kernel_v.Boot.Crumbs.Lost.{load-Crumbs}
use kernel_v.Boot.Main.PowerOn.{power_on-Booted}
use kernel_v.Loader.{enters, load}
use kernel_v.MemoryMap.Read.{e820_map}
use kernel_v.Samples.Bios.{two_entries, bios, served}
use kernel_v.Boot.Main.Virtual.{kernel_main_virtual}
use kernel_v.Boot.High.Virtual.{high_stack_entry_virtual, high_stack_entry_virtual_lem}
use kernel_v.Boot.Main.Booted.{Booted, kernel_main-Booted}
use kernel_v.Boot.Main.DoubleFault.{enters_task, double_fault_lem}
use kernel_v.Boot.Stack.{Stacked, map_stack-Stacked}
use kernel_v.Kernel.{Kernel}
use kernel_v.PageFault.{PageFaultStack, resumes, stops}
use kernel_v.Paging.{page_directory}
use kernel_v.Paging.Demand.{Demanded}
use kernel_v.Paging.Walk.{walk}
use kernel_v.Samples.Power.{image, power_on, top, room, low_left}
use kernel_v.Samples.Started.{started, started-IsSafe, started_left}
use kernel_v.Tables.Gdt.{gdt_table, base_of, limit_of}
use kernel_v.Tables.Tss.{tss_size}
use kernel_v.Tables.Idt.{is_present, gate_type}

map_stack-Stacked_example :
    (k' : Kernel) × (map_stack started ≡ goes k') × Stacked 0xC3000000 started k'
map_stack-Stacked_example = map_stack-Stacked started started-IsSafe (omega (arith, started_left))

kernel_main-Booted_example :
    (m' : Machine) × (kernel_main image power_on ≡ goes m') × Booted 2 image power_on m'
kernel_main-Booted_example = kernel_main-Booted 2 image power_on refl refl refl room

-- The machine that this start leaves.
started_machine :
    (m' : Machine) × (kernel_main image power_on ≡ goes m') × Booted 2 image power_on m'
started_machine = kernel_main-Booted 2 image power_on refl refl refl room

double_fault_lem_example :
    let m' : Machine = started_machine.0 in
    ((is_present (m'.idt 8) ≡ 1) × (gate_type (m'.idt 8) ≡ 0x5) × ((m'.idt 8).sel ≡ 3 * 8))
    × ((base_of (gdt_at 3 m'.gdt) ≡ 0x14000)
        × (limit_of (gdt_at 3 m'.gdt) ≡ 103)
        × ((gdt_at 3 m'.gdt).access ≡ 0x8B))
    × ((m'.tss_df.cr3 ≡ page_directory)
        × (m'.tss_df.eip ≡ 0x10345)
        × (m'.tss_df.esp ≡ u32 (0x15000 + 0x1000)))
    × ((m'.idtr.base ≡ 0x14100)
        × ((v : ℕ) → v < 256 → 8 * v + 7 ≤ m'.idtr.limit)
        × (m'.gdtr.base ≡ 0x14A00)
        × ((m'.idt 8).sel + 7 ≤ m'.gdtr.limit)
        × ((m'.idt 8).sel ≡ m'.tr))
    × ((enters_task 8 m' ≡ false)
        × (enters_task 8 (record m' { gdt = gdt_table 0x14000 tss_size }) ≡ true))
double_fault_lem_example =
    double_fault_lem 2 image power_on started_machine.0 (omega arith) (omega arith)
      started_machine.2

abbrev frame : PageFaultStack
frame = record {
  ds = 0x10;
  edi = 1;
  esi = 2;
  ebp = 3;
  esp = 0xC2FFFFF0;
  ebx = 4;
  edx = 5;
  ecx = 6;
  eax = 7;
  int_no = 14;
  error_code = 2;
  eip = 0x10234;
  cs = 0x08;
  eflags = 0x202;
  useresp = 0;
  ss = 0x10;
}

high_stack_entry_virtual_lem_example :
    (m' : Machine) × (kernel_main_virtual image power_on ≡ some (goes m'))
    × (kernel_main image power_on ≡ goes m')
    × Booted 2 image power_on m'
    × (high_stack_entry_virtual frame 0xC2FFFF00 0xC2FFFF40 0xC2FFFFE0 0x80000 m'.kernel
        ≡ high_stack_entry frame 0xC2FFFF00 0xC2FFFF40 0xC2FFFFE0 0x80000 m'.kernel)
high_stack_entry_virtual_lem_example =
    high_stack_entry_virtual_lem frame 0xC2FFFF00 0xC2FFFF40 0xC2FFFFE0 0x80000 2 289 image power_on
      refl refl refl room (omega arith) (omega (arith, top)) (omega (arith, low_left))

high_stack_entry_lem_example :
    (k₁ k : Kernel) × (d : Demanded 0xC1001234 (started_machine.0).kernel k₁) × (walk
        (started_machine.0).kernel
        0xC1001234
      ≡ none)
    × (high_stack_entry frame 0xC2FFFF00 0xC2FFFF10 0xC2FFFFE0 0x80000 (started_machine.0).kernel
        ≡ resumes k)
    × Entered d.frame (started_machine.0).kernel k₁ k
high_stack_entry_lem_example =
    high_stack_entry_lem frame 0xC2FFFF00 0xC2FFFF10 0xC2FFFFE0 0x80000 2 image power_on
      started_machine.0 started_machine.2 (omega arith)

-- Calls that take 560 bytes each, and 2560 below for the messages.
test_stack_overflow-Overflown_example :
    (k : Kernel) × (high_stack_entry frame 0xC2FFFF00 0xC2FFFF10 0xC2FFFFE0 0x80000
        (started_machine.0).kernel
      ≡ resumes k)
    × Overflown 560 0xA00 0 0xC2FFFD00 k (test_stack_overflow 560 0xA00 121 0 0xC2FFFD00 k)
test_stack_overflow-Overflown_example =
    test_stack_overflow-Overflown 560 0xA00 frame 0xC2FFFF00 0xC2FFFF10 0xC2FFFFE0 0x80000
      0xC2FFFD00 2 image power_on started_machine.0 started_machine.2 (omega arith) (omega arith)
      (omega arith) (omega arith) (omega arith)

power_on-Booted_example :
    (k : Kernel) × (load 3 bios power_on.kernel ≡ enters k)
    × (let r = kernel_entry 0x10100 0x1000A k in
        (r.0 ≡ record { esp = 0x9FAFC; eip = 0x10100 })
        × (load32 0x9FAFC r.1 ≡ 0x1000A)
        × (e820_map r.1 ≡ two_entries)
        × ((m' : Machine) × (kernel_main image (record power_on { kernel = r.1 }) ≡ goes m')
            × Booted 2 image (record power_on { kernel = r.1 }) m'))
power_on-Booted_example =
    power_on-Booted 2 image power_on bios (λ x. x) 0x10100 0x1000A refl refl served (omega arith)
      refl refl refl room

double_fault_handler_lem_example :
    let m' : Machine = started_machine.0 in
    let k₀ = record m'.kernel { cr3 = m'.tss_df.cr3 } in
    (k : Kernel) × (double_fault_handler k₀ ≡ stops k) × Marked k₀ k
double_fault_handler_lem_example =
    double_fault_handler_lem 2 image power_on started_machine.0 started_machine.2

-- Memory after the handler.
marked :
    let m' : Machine = started_machine.0 in
    let k₀ = record m'.kernel { cr3 = m'.tss_df.cr3 } in
    (k : Kernel) × (double_fault_handler k₀ ≡ stops k) × Marked k₀ k
marked = double_fault_handler_lem 2 image power_on started_machine.0 started_machine.2

load-Crumbs_example : (k' : Kernel) × (load 3 bios marked.0 ≡ enters k') × (Crumbs k' → ⊥)
load-Crumbs_example =
    load-Crumbs two_entries bios (λ x. x) marked.0 refl refl served (omega arith) (omega arith)

switch_to_high_stack_lem_example :
    let m' : Machine = started_machine.0 in
    (r : Registers) × (k : Kernel) × (call_with 0x10010 new_stack_ptr 0x10400 0x10800
        (0x9F000 + 4 * (0x240 + 3))
        m'.kernel
      ≡ some (r, k))
    × (switch_to_high_stack r k ≡ some (record { esp = new_stack_ptr; eip = 0x10400 }))
    × ((w : ℕ) → w < 2 ^ 32 → walk k w ≡ walk m'.kernel w)
    × ((x : ℕ)
        → (x < 0x9F000 + 4 * 0x240) ⊎ (0x9F000 + 4 * 0x240 + 12 ≤ x)
        → k.ram x ≡ m'.kernel.ram x)
    × ((f : ℕ) × (used m'.kernel f ≡ true)
        × ((value : ℕ)
            → push value new_stack_ptr k ≡ some (0xC2FFFFEC, store32 (f * 4096 + 0xFEC) value k)))
switch_to_high_stack_lem_example =
    switch_to_high_stack_lem 2 image power_on started_machine.0 0x240 0x10010 0x10400 0x10800
      started_machine.2 (omega arith) (omega arith)

-- Memory up to 2 GB less 64 KB.
abbrev high_power_on : Kernel
high_power_on = record power_on.kernel {
  usable_memory_region = record { base = 0x100000; length = 0x7FEF0000; type = 1 } ∷ [];
}
