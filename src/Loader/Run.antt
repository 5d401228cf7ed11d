-- ===== src/Loader/Run.antt =====
-- Both stages of the boot loader, and what the kernel finds in memory.
use kernel_v.Base.{
  ℕ, suc, ◌+◌, ◌-◌, ◌≤◌, ◌<◌, ◌≡◌, ◌⊎◌, refl, ap, ◌∙◌, arith, List, [], Option, some, inr, length,
  take, u8, le→leb, lt→ltb,
}
use kernel_v.Kernel.{Kernel}
use kernel_v.Loader.{
  Bios, MapLoop, enters, kernel_packet, stage2_packet, read_sectors, e820_done, finish_map,
  get_memory_map, enter_kernel, load_and_enter, check_extension, stage2, stage1, then_stage2, load,
}
use kernel_v.Loader.Entries.{MemoryAlone, MemoryAlone-trans, entries_from-same}
use kernel_v.Loader.Map.{Serves, Stored, e820_loop-Stored}
use kernel_v.MemoryMap.{E820Entry, MapState, parse_and_print_e820_map}
use kernel_v.MemoryMap.Read.{e820_count, e820_map, entries_from}
use kernel_v.MemoryMap.Usable.{available, usable_memory_region-parse}
use kernel_v.Paging.Memory.{store32, ram-store32, store32-ram}

-- What the loop stored, as the kernel finds it.
module _ (es : List E820Entry) (l l' : MapLoop) (fits : length es ≤ 128)
    (s : Stored 0 es l l') where
  done-count : e820_count (e820_done l') ≡ length es
  unfolding e820_done
  done-count =
      let few : l'.memmap_count ≤ 128 = omega (arith, s.count, fits) in ground (arith, s.count, few)

  ram-done : (x : ℕ) → (x < 0x2000) ⊎ (0x2006 ≤ x) → (e820_done l').ram x ≡ l'.kernel.ram x
  unfolding e820_done
  ram-done x off =
      let word : (store32 0x2000 0x5000 l'.kernel).ram x ≡ l'.kernel.ram x =
        ram-store32 0x2000 0x5000 x l'.kernel (omega (arith, off)) in
      ground (arith, word, off)

  map-done : e820_map (e820_done l') ≡ es
  unfolding e820_map
  map-done =
      ap (λ (n : ℕ). entries_from n 0 (e820_done l')) done-count
      ∙ entries_from-same (length es) 0 l'.kernel (e820_done l')
          (λ x low high. ram-done x (inr (omega (arith, low))))
      ∙ s.entries

  kept-done : (x : ℕ) → 0x5C00 ≤ x → (e820_done l').ram x ≡ l.kernel.ram x
  kept-done x high =
      ram-done x (inr (omega (arith, high))) ∙ s.outside x (inr (omega (arith, high, fits)))

  memory-done : MemoryAlone l.kernel (e820_done l')
  unfolding e820_done
  memory-done = MemoryAlone-trans l.kernel l'.kernel (e820_done l') s.memory (
      ap (λ (q : Kernel). record q { ram = (e820_done l').ram })
        (store32-ram 0x2000 0x5000 l'.kernel))

-- With a round for each entry and one more, the map of the BIOS is in memory for the kernel.
pub get_memory_map_lem :
    (es : List E820Entry) (bios : Bios) (k : Kernel)
    → Serves bios.e820 0 es
    → length es ≤ 128
    → (k' : Kernel) × (get_memory_map (suc (length es)) bios k ≡ some k')
      × (e820_map k' ≡ es)
      × ((x : ℕ) → 0x5C00 ≤ x → k'.ram x ≡ k.ram x)
      × MemoryAlone k k'
unfolding get_memory_map finish_map
get_memory_map_lem es bios k served fits =
    let l : MapLoop = record { di = 0x5000; ebx = 0; memmap_count = 0; kernel = k } in
    let r = e820_loop-Stored es bios 0 l served refl refl (omega (arith, fits)) in
    (
      e820_done r.0,
      rw (r.1) refl,
      map-done es l r.0 fits r.2,
      kept-done es l r.0 fits r.2,
      memory-done es l r.0 fits r.2,
    )

-- The sectors of the kernel.
kernel_bytes :
    (disk : ℕ → ℕ) (k : Kernel) (x : ℕ)
    → 0x10000 ≤ x
    → x < 0x16000
    → (read_sectors kernel_packet disk k).ram x ≡ u8 (disk (0x1200 + (x - 0x10000)))
unfolding read_sectors
kernel_bytes disk k x low high = rw (le→leb 0x10000 x low, lt→ltb x 0x16000 high) refl

-- The loader up to the map.
load_steps :
    (rounds : ℕ) (bios : Bios) (disk : ℕ → ℕ) (k : Kernel)
    → bios.extension ≡ some 0xAA55
    → bios.disk ≡ some disk
    → load rounds bios k
      ≡ enter_kernel (
          get_memory_map rounds bios
            (read_sectors kernel_packet disk (read_sectors stage2_packet disk k)))
unfolding load then_stage2 stage1 stage2 check_extension load_and_enter
load_steps rounds bios disk k extension read =
    let k₁ : Kernel = read_sectors stage2_packet disk k in
    ap (λ (d : Option (ℕ → ℕ)). then_stage2 rounds bios (stage1 d k)) read
    ∙ ap (λ (bx : Option ℕ). check_extension rounds bios bx k₁) extension
    ∙ ap (λ (d : Option (ℕ → ℕ)). load_and_enter rounds bios d k₁) read

-- The kernel is entered with its sectors and the map in memory.
pub load_enters :
    (es : List E820Entry) (bios : Bios) (disk : ℕ → ℕ) (k : Kernel)
    → bios.extension ≡ some 0xAA55
    → bios.disk ≡ some disk
    → Serves bios.e820 0 es
    → length es ≤ 128
    → (k' : Kernel) × (load (suc (length es)) bios k ≡ enters k')
      × ((x : ℕ) → 0x10000 ≤ x → x < 0x16000 → k'.ram x ≡ u8 (disk (0x1200 + (x - 0x10000))))
      × (e820_map k' ≡ es)
      × MemoryAlone k k'
unfolding enter_kernel read_sectors
load_enters es bios disk k extension read served fits =
    let k₁ : Kernel = read_sectors stage2_packet disk k in
    let k₂ : Kernel = read_sectors kernel_packet disk k₁ in
    let r = get_memory_map_lem es bios k₂ served fits in
    (
      r.0,
      load_steps (suc (length es)) bios disk k extension read ∙ ap enter_kernel (r.1),
      λ x low high. r.3 x (omega (arith, low)) ∙ kernel_bytes disk k₁ x low high,
      r.2,
      r.4,
    )

-- With a BIOS that supports the disk extensions, reads the disk and serves a map of at most 128
-- entries in order, the loader enters the kernel within a round for each entry and one more. The
-- kernel's 48 sectors, from the tenth on, are at 0x10000 then, the entries that the kernel reads are
-- those of the BIOS, and parsing them from an empty table keeps the first 32 that are available.
pub load_lem :
    (es : List E820Entry) (bios : Bios) (disk : ℕ → ℕ) (k : Kernel) (s : MapState)
    → bios.extension ≡ some 0xAA55
    → bios.disk ≡ some disk
    → Serves bios.e820 0 es
    → length es ≤ 128
    → s.usable_memory_region ≡ []
    → (k' : Kernel) × (load (suc (length es)) bios k ≡ enters k')
      × ((x : ℕ) → 0x10000 ≤ x → x < 0x16000 → k'.ram x ≡ u8 (disk (0x1200 + (x - 0x10000))))
      × (e820_map k' ≡ es)
      × ((parse_and_print_e820_map (e820_map k') s).usable_memory_region ≡ take 32 (available es))
load_lem es bios disk k s extension read served fits empty =
    let r = load_enters es bios disk k extension read served fits in
    (
      r.0,
      r.1,
      r.2,
      r.3,
      (usable_memory_region-parse (e820_map r.0) s empty).0
          ∙ ap (λ (map : List E820Entry). take 32 (available map)) r.3,
    )
