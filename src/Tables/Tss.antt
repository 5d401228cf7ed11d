-- ===== src/Tables/Tss.antt =====
-- kernel/arch/x86/tss.c: the task state for double faults.
use kernel_v.Base.{ℕ, ◌+◌, ◌≡◌, refl, u32}

abbrev pub double_fault_stack_size : ℕ
double_fault_stack_size = 0x1000

pub record TssEntry : Type 0 where
  pub prev_tss : ℕ
  pub esp0 : ℕ
  pub ss0 : ℕ
  pub esp1 : ℕ
  pub ss1 : ℕ
  pub esp2 : ℕ
  pub ss2 : ℕ
  pub cr3 : ℕ
  pub eip : ℕ
  pub eflags : ℕ
  pub eax : ℕ
  pub ecx : ℕ
  pub edx : ℕ
  pub ebx : ℕ
  pub esp : ℕ
  pub ebp : ℕ
  pub esi : ℕ
  pub edi : ℕ
  pub es : ℕ
  pub cs : ℕ
  pub ss : ℕ
  pub ds : ℕ
  pub fs : ℕ
  pub gs : ℕ
  pub ldt : ℕ
  pub trap : ℕ
  pub iomap_base : ℕ

-- 25 fields of four bytes and two of two, packed.
abbrev pub tss_size : ℕ
tss_size = 104

-- Every byte is set to 0.
abbrev pub cleared : TssEntry
cleared = record {
  prev_tss = 0;
  esp0 = 0;
  ss0 = 0;
  esp1 = 0;
  ss1 = 0;
  esp2 = 0;
  ss2 = 0;
  cr3 = 0;
  eip = 0;
  eflags = 0;
  eax = 0;
  ecx = 0;
  edx = 0;
  ebx = 0;
  esp = 0;
  ebp = 0;
  esi = 0;
  edi = 0;
  es = 0;
  cs = 0;
  ss = 0;
  ds = 0;
  fs = 0;
  gs = 0;
  ldt = 0;
  trap = 0;
  iomap_base = 0;
}

-- The addresses of the stack and of the handler come from the linker, `cr3` from the register.
pub init_tss : (double_fault_stack double_fault_handler cr3 : ℕ) → TssEntry
init_tss double_fault_stack double_fault_handler cr3 = record cleared {
  ss = 0x10;
  esp = u32 (double_fault_stack + double_fault_stack_size);
  cs = 0x08;
  eip = double_fault_handler;
  eflags = 0x202;
  cr3 = cr3;
  ds = 0x10;
  es = 0x10;
  fs = 0x10;
  gs = 0x10;
}

pub update_tss_cr3 : (cr3 : ℕ) → TssEntry → TssEntry
update_tss_cr3 cr3 tss = record tss { cr3 = cr3 }

-- What the processor loads for a double fault: the directory, its stack, its handler, and the
-- segments of code and data.
pub update_tss_cr3-init_tss :
    (double_fault_stack double_fault_handler before cr3 : ℕ)
    → let t = update_tss_cr3 cr3 (init_tss double_fault_stack double_fault_handler before) in
      (t.cr3 ≡ cr3)
      × (t.esp ≡ u32 (double_fault_stack + 0x1000))
      × (t.eip ≡ double_fault_handler)
      × (t.cs ≡ 0x08)
      × (t.ss ≡ 0x10)
unfolding update_tss_cr3 init_tss
update_tss_cr3-init_tss double_fault_stack double_fault_handler before cr3 =
    (refl, refl, refl, refl, refl)
