-- ===== src/Boot/Main/PowerOn.antt =====
-- The boot loader and `kernel_main` of kernel/main/kernel.c, one after the other.
use kernel_v.Base.{
  ℕ, zero, suc, ◌+◌, ◌*◌, ◌^◌, ◌<◌, ◌≤◌, ◌≡◌, refl, ap, ap₂, ◌∙◌, arith, some, [], length, take,
  inl, u8, u32,
}
use kernel_v.Boot.{goes}
use kernel_v.Boot.Entry.{kernel_entry}
use kernel_v.Boot.Main.{Image, Machine, kernel_main}
use kernel_v.Boot.Main.Booted.{Booted, kernel_main-Booted}
use kernel_v.Boot.Main.Frames.{Roomy}
use kernel_v.Kernel.{Kernel}
use kernel_v.Loader.{Bios, enters, load}
use kernel_v.Loader.Map.{Serves}
use kernel_v.Loader.Run.{load_enters}
use kernel_v.Loader.Entries.{entries_from-same}
use kernel_v.MemoryMap.Read.{e820_map, e820_count, entries_from}
use kernel_v.Paging.Memory.{load32, store32, store32-ram, load32-store32, ram-store32}
use kernel_v.MemoryMap.Usable.{available}
use kernel_v.Panik.{normal}

length-entries_from : (rounds i : ℕ) (k : Kernel) → length (entries_from rounds i k) ≡ rounds
unfolding entries_from
length-entries_from zero i k = refl
length-entries_from (suc rounds) i k = ap suc (length-entries_from rounds (i + 1) k)

-- The call of `kernel_main` pushes above the map.
e820_map-kernel_entry :
    (kernel_main return_address : ℕ) (k : Kernel)
    → length (e820_map k) ≤ 128
    → e820_map (kernel_entry kernel_main return_address k).1 ≡ e820_map k
unfolding e820_map kernel_entry
e820_map-kernel_entry kernel_main return_address k fits =
    let k' : Kernel = store32 0x9FAFC return_address k in
    let below = λ (x : ℕ) (low : x < 0x9FAFC). ram-store32 0x9FAFC return_address x k (inl low) in
    let few : e820_count k ≤ 128 = omega (arith, fits, length-entries_from (e820_count k) 0 k) in
    let same : e820_count k' ≡ e820_count k =
      ap₂ (λ (b c : ℕ). u8 b + u8 c * 2 ^ 8) (below 0x2004 (omega arith))
        (below 0x2005 (omega arith)) in
    ap (λ (n : ℕ). entries_from n 0 k') same
    ∙ entries_from-same (e820_count k) 0 k k' (λ x low high. below x (omega (arith, high, few)))

-- From the power on with a BIOS that supports the disk extensions, reads the disk, and serves the
-- entries of `image` in order, at most 128 of them: the loader enters the kernel, and `_start` calls
-- `kernel_main`, with its return address as the first word of the stack below 0x9FB00, and these
-- entries in memory. With the kernel's variables as they start, and room enough in the map, which
-- keeps the bitmap below the stack (`Roomy`), the kernel then reaches the switch of stacks, with the machine as `Booted` says.
pub power_on-Booted :
    (n : ℕ) (image : Image) (m : Machine) (bios : Bios) (disk : ℕ → ℕ) (address return_address : ℕ)
    → bios.extension ≡ some 0xAA55
    → bios.disk ≡ some disk
    → Serves bios.e820 0 image.e820_map
    → length image.e820_map ≤ 128
    → m.kernel.diag.current_panik_mode ≡ normal
    → m.kernel.usable_memory_region ≡ []
    → m.kernel.max_frame_idx ≡ 0
    → Roomy (30 + n) image (take 32 (available image.e820_map))
    → (k : Kernel) × (load (suc (length image.e820_map)) bios m.kernel ≡ enters k)
      × (let r = kernel_entry address return_address k in
          (r.0 ≡ record { esp = 0x9FAFC; eip = address })
          × (load32 0x9FAFC r.1 ≡ u32 return_address)
          × (e820_map r.1 ≡ image.e820_map)
          × ((m' : Machine) × (kernel_main image (record m { kernel = r.1 }) ≡ goes m')
              × Booted n image (record m { kernel = r.1 }) m'))
unfolding kernel_entry
power_on-Booted n image m bios disk address return_address extension read served fits mode empty
      start room =
    let r = load_enters image.e820_map bios disk m.kernel extension read served fits in
    let k : Kernel = store32 0x9FAFC return_address r.0 in
    let alone : k ≡ record r.0 { ram = k.ram } = store32-ram 0x9FAFC return_address r.0 in
    let map : e820_map k ≡ e820_map r.0 =
      e820_map-kernel_entry address return_address r.0 (rw (r.3) fits) in
    (
      r.0,
      r.1,
      (
        refl,
        load32-store32 0x9FAFC return_address r.0,
        map ∙ r.3,
        kernel_main-Booted n image (record m { kernel = k })
            (ap (λ (q : Kernel). q.diag.current_panik_mode) alone
              ∙ ap (λ (q : Kernel). q.diag.current_panik_mode) r.4
              ∙ mode)
            (ap (λ (q : Kernel). q.usable_memory_region) alone
              ∙ ap (λ (q : Kernel). q.usable_memory_region) r.4
              ∙ empty)
            (ap (λ (q : Kernel). q.max_frame_idx) alone
              ∙ ap (λ (q : Kernel). q.max_frame_idx) r.4
              ∙ start)
            room,
      ),
    )
