-- ===== src/Samples/Power.antt =====
-- A machine at the start of `kernel_main`, with a map of two entries, for the tests.
use kernel_v.Base.{◌≡◌, refl, arith, [], take}
use kernel_v.Boot.Main.{Image, Machine}
use kernel_v.Samples.Bios.{two_entries}
use kernel_v.Boot.Main.Frames.{Roomy}
use kernel_v.Boot.Main.Framed.{withheld}
use kernel_v.Pmm.{max_frame, region_end}
use kernel_v.Pmm.Reserve.{count_free}
use kernel_v.MemoryMap.Usable.{available}
use kernel_v.Samples.{machine}
use kernel_v.Tables.Idt.{no_entry}
use kernel_v.Tables.Tss.{cleared}

abbrev pub image : Image
image = record {
  kernel_start = 0x10000;
  kernel_end = 0x18000;
  isr_page_fault = 0x10234;
  idt_address = 0x14100;
  gdt_address = 0x14A00;
  double_fault_handler = 0x10345;
  tss_df_address = 0x14000;
  double_fault_stack_address = 0x15000;
  e820_map = two_entries;
}

abbrev pub power_on : Machine
power_on = record {
  kernel = record machine {
    usable_memory_region = [];
    total_frames = 0;
    used_frames = 0;
    max_frame_idx = 0;
  };
  idt = λ i. no_entry;
  gdt = [];
  tss_df = cleared;
  idtr = record { limit = 0; base = 0 };
  gdtr = record { limit = 23; base = 0x7F40 };
  tr = 0;
  double_fault_stack = λ i. 0;
}

pub top : max_frame (take 32 (available image.e820_map)) 0 ≡ 320
unfolding max_frame region_end
top = refl

withheld_left : count_free (withheld image (take 32 (available image.e820_map))) 319 1 ≡ 64
unfolding max_frame region_end
withheld_left = refl

pub room : Roomy 32 image (take 32 (available image.e820_map))
unfolding max_frame region_end
room = record {
  start = omega arith;
  below = omega arith;
  ends = (omega arith, tt);
  clear = omega (arith, top);
  once = omega arith;
  room = omega (arith, withheld_left);
}

pub low_left : count_free (withheld image (take 32 (available image.e820_map))) 289 1 ≡ 34
unfolding max_frame region_end
low_left = refl
