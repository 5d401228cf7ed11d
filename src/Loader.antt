-- ===== src/Loader.antt =====
-- bootloader/stage1.asm and bootloader/stage2.asm: what the boot loader leaves in memory for the
-- kernel.
pub mod Entries
pub mod Map
pub mod Run
pub mod Protected
mod Tests
use kernel_v.Base.{
  ℕ, zero, suc, ◌+◌, ◌-◌, ◌*◌, ◌/◌, ◌%◌, ◌^◌, List, [], ◌∷◌, ◌++◌, Option, none, some, u8, u16,
  ◌&&◌, leb, ltb, ◌==◌, if◌then◌else◌, codes,
}
use kernel_v.Kernel.{Kernel, store8}
use kernel_v.MemoryMap.{E820Entry}
use kernel_v.Paging.Memory.{store32}

-- What the BIOS answers to a call for an entry of its map: it sets the carry, or it gives `eax`, the
-- next `ebx`, and the entry that it stores at `es:di`.
pub data Answer : Type 0 where
  refuses : Answer
  gives : (eax ebx : ℕ) → E820Entry → Answer

-- The BIOS: `bx` as the check for the disk extensions leaves it, the bytes of the disk, and the map;
-- `none` is a carry.
pub record Bios : Type 0 where
  pub extension : Option ℕ
  pub disk : Option (ℕ → ℕ)
  pub e820 : (ebx : ℕ) → Answer

-- The fields of the packet that the disk is read with.
pub record ReadPacket : Type 0 where
  pub sectors : ℕ
  pub offset : ℕ
  pub segment : ℕ
  pub lba : ℕ

abbrev pub kernel_packet : ReadPacket
kernel_packet = record { sectors = 0x30; offset = 0x00; segment = 0x1000; lba = 0x09 }

-- The read that the packet asks for, sectors having 512 bytes.
pub read_sectors : ReadPacket → (disk : ℕ → ℕ) → Kernel → Kernel
read_sectors p disk k =
    let at = p.segment * 16 + p.offset in
    record k {
      ram = λ x.
          if leb at x && ltb x (at + p.sectors * 512)
          then u8 (disk (p.lba * 512 + (x - at)))
          else k.ram x;
    }

-- An entry in memory, lowest bytes first.
pub store64 : (at v : ℕ) → Kernel → Kernel
store64 at v k = store32 (at + 4) (v / 2 ^ 32) (store32 at v k)

pub store_entry : (at : ℕ) → E820Entry → Kernel → Kernel
store_entry at e k =
    store32 (at + 20) e.reserved
      (store32 (at + 16) e.type (store64 (at + 8) e.length (store64 at e.base k)))

abbrev pub smap : ℕ
smap = 0x534D4150

-- The registers of the loop over the map, its counter, and memory.
pub record MapLoop : Type 0 where
  pub di : ℕ
  pub ebx : ℕ
  pub memmap_count : ℕ
  pub kernel : Kernel

-- A round that was given an entry with the signature.
pub next_entry : (ebx : ℕ) → E820Entry → MapLoop → MapLoop
next_entry ebx e l = record {
  di = u16 (l.di + 24);
  ebx = ebx;
  memmap_count = u16 (l.memmap_count + 1);
  kernel = store_entry l.di e l.kernel;
}

-- The loop `.e820_loop`, by the rounds left; `none` where they do not suffice.
pub e820_loop : (rounds : ℕ) → Bios → MapLoop → Option MapLoop
e820_loop zero bios l = none
e820_loop (suc rounds) bios l = elim (bios.e820 l.ebx) [
  | refuses ↦ some l
  | gives eax ebx e ↦
      let l' = next_entry ebx e l in
      let rest = e820_loop rounds bios l' in
      if eax == smap
      then (if ebx == 0 then some l' else rest)
      else some (record l { kernel = store_entry l.di e l.kernel })
]

-- `.e820_done`: the address and the count are left for the kernel.
pub e820_done : MapLoop → Kernel
e820_done l =
    let k = store32 0x2000 0x5000 l.kernel in
    store8 0x2005 (l.memmap_count / 2 ^ 8) (store8 0x2004 l.memmap_count k)

pub finish_map : Option MapLoop → Option Kernel
finish_map none = none
finish_map (some l) = some (e820_done l)

pub get_memory_map : (rounds : ℕ) → Bios → Kernel → Option Kernel
get_memory_map rounds bios k =
    finish_map
      (e820_loop rounds bios (record { di = 0x5000; ebx = 0; memmap_count = 0; kernel = k }))

-- A stage shows a message and halts, enters the kernel, or stays in the loop over the map.
pub data Entry : Type 0 where
  halts_with : (shown : List ℕ) → Entry
  enters : Kernel → Entry
  loops : Entry

-- The lengths that the BIOS is given count the 0 at the end of a text.
abbrev pub message : List ℕ → List ℕ
message shown = shown ++ 0 ∷ []

pub enter_kernel : Option Kernel → Entry
enter_kernel (some k) = enters k
enter_kernel none = loops

pub load_and_enter : (rounds : ℕ) → Bios → Option (ℕ → ℕ) → Kernel → Entry
load_and_enter rounds bios none k = halts_with (message (codes "Cannot Load Kernel\n\r"))
load_and_enter rounds bios (some disk) k =
    enter_kernel (get_memory_map rounds bios (read_sectors kernel_packet disk k))

pub check_extension : (rounds : ℕ) → Bios → Option ℕ → Kernel → Entry
check_extension rounds bios none k =
    halts_with (message (codes "LBA extension support check failed\n\r"))
check_extension rounds bios (some bx) k =
    if bx == 0xAA55
    then load_and_enter rounds bios bios.disk k
    else halts_with (message (codes "LBA extension support check failed\n\r"))

-- From `Start` to the jump to 0x10000.
pub stage2 : (rounds : ℕ) → Bios → Kernel → Entry
stage2 rounds bios k = check_extension rounds bios bios.extension k

abbrev pub stage2_packet : ReadPacket
stage2_packet = record { sectors = 0x05; offset = 0x7E00; segment = 0x00; lba = 0x01 }

-- The first stage, which enters the second at 0x7E00.
pub stage1 : Option (ℕ → ℕ) → Kernel → Entry
stage1 none k = halts_with (message (codes "Disk Read Error: Stage II cannot be loaded\n\r"))
stage1 (some disk) k = enters (read_sectors stage2_packet disk k)

pub then_stage2 : (rounds : ℕ) → Bios → Entry → Entry
then_stage2 rounds bios (halts_with shown) = halts_with shown
then_stage2 rounds bios (enters k) = stage2 rounds bios k
then_stage2 rounds bios loops = loops

-- From the first stage to the kernel's entry.
pub load : (rounds : ℕ) → Bios → Kernel → Entry
load rounds bios k = then_stage2 rounds bios (stage1 bios.disk k)
