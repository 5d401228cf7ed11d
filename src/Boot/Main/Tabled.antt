-- ===== src/Boot/Main/Tabled.antt =====
-- The stages of `kernel_main` in kernel/main/kernel.c before the frames are set up.
use kernel_v.Base.{◌≡◌, refl, [], take}
use kernel_v.Boot.Debug.Shown.{
  check_double_fault_breadcrumbs-Said, debug_idt_entry-Said, debug_gdt_entry-Said,
  debug_tss_contents-Said,
}
use kernel_v.Boot.Main.{
  Image, Machine, start_console, start_tables, debug_tables, read_memory_map, load_tss,
  before_switch,
}
use kernel_v.Kernel.{Kernel}
use kernel_v.Kernel.Said.{Said, Said-trans, Said-refl, say-Said}
use kernel_v.MemoryMap.Usable.{available, usable_memory_region-parse}
use kernel_v.Tables.Idt.{idt_ptr, idt_init}
use kernel_v.Tables.Gdt.{gdtp, gdt_init}
use kernel_v.Tables.Tss.{tss_size, init_tss, update_tss_cr3}

start_console-Said : (k : Kernel) → Said k (start_console k)
unfolding start_console
start_console-Said k =
    Said-trans
      (say-Said _ _ (say-Said _ _ (record { kept = refl; interrupts = refl; mode = refl })))
      (check_double_fault_breadcrumbs-Said _)

start_tables-Said : (image : Image) (m : Machine) → Said m.kernel (start_tables image m).kernel
unfolding start_tables
start_tables-Said image m = say-Said _ _ (say-Said _ _ (Said-refl m.kernel))

debug_tables-Said : (image : Image) (m : Machine) → Said m.kernel (debug_tables image m).kernel
unfolding debug_tables
debug_tables-Said image m = say-Said _ _ (
    say-Said _ _ (
      say-Said _ _ (
        say-Said _ _ (
          Said-trans
            (Said-trans
              (Said-trans (say-Said _ _ (say-Said _ _ (Said-refl m.kernel)))
                (debug_idt_entry-Said 8 (m.idt 8) _))
              (debug_gdt_entry-Said 3 _ _))
            (debug_tss_contents-Said m.tss_df _)))))

-- The machine once the tables are loaded and shown.
abbrev pub tabled : Image → Machine → Machine
tabled image m =
    debug_tables image (start_tables image (record m { kernel = start_console m.kernel }))

pub tabled-Said : (image : Image) (m : Machine) → Said m.kernel (tabled image m).kernel
tabled-Said image m =
    Said-trans (start_console-Said m.kernel)
      (Said-trans (start_tables-Said image _) (debug_tables-Said image _))

-- The usable regions are read from the map.
pub read_memory_map_lem :
    (image : Image) (k : Kernel)
    → k.usable_memory_region ≡ []
    → let k' = read_memory_map image k in
      (k'.usable_memory_region ≡ take 32 (available image.e820_map))
      × (k'.max_frame_idx ≡ k.max_frame_idx)
      × (k'.diag.current_panik_mode ≡ k.diag.current_panik_mode)
unfolding read_memory_map
read_memory_map_lem image k empty =
    ((usable_memory_region-parse image.e820_map _ empty).0, refl, refl)

pub load_tss-Said : (image : Image) (m : Machine) → Said m.kernel (load_tss image m).kernel
unfolding load_tss
load_tss-Said image m = say-Said _ _ (
    say-Said _ _ (
      say-Said _ _ (
        say-Said _ _
          (say-Said _ _ (say-Said _ _ (say-Said _ _ (say-Said _ _ (Said-refl m.kernel))))))))

pub before_switch-Said : (k : Kernel) → Said k (before_switch k)
unfolding before_switch
before_switch-Said k = say-Said _ _ (say-Said _ _ (say-Said _ _ (Said-refl k)))

-- What the tables are at the end.
pub tables_of-tabled :
    (image : Image) (m : Machine) (k : Kernel)
    → let m' = load_tss image (record (tabled image m) { kernel = k }) in
      (m'.idt ≡ idt_init image.isr_page_fault m.idt)
      × (m'.gdt ≡ gdt_init image.tss_df_address tss_size)
      × (m'.tss_df
          ≡ update_tss_cr3 k.cr3 (
              init_tss image.double_fault_stack_address image.double_fault_handler
                (start_console m.kernel).cr3))
      × ((m'.idtr ≡ idt_ptr image.idt_address)
          × (m'.gdtr ≡ gdtp image.gdt_address)
          × (m'.tr ≡ 0x18))
unfolding load_tss debug_tables start_tables
tables_of-tabled image m k = (refl, refl, refl, (refl, refl, refl))
