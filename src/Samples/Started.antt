-- ===== src/Samples/Started.antt =====
-- A machine with paging on, its low megabyte used and 256 frames free, for the tests.
use kernel_v.Base.{
  ℕ, ◌<◌, ◌≡◌, refl, ◌∙◌, arith, true, false, none, ◌^◌, ◌≤◌, le→ltb, ltb, leb, ◌&&◌, if◌then◌else◌,
}
use kernel_v.Base.Tables.{holds_below_sound}
use kernel_v.Kernel.{Kernel}
use kernel_v.Paging.{paging_init}
use kernel_v.Paging.Safe.{IsSafe}
use kernel_v.Paging.Start.{paging_init-IsSafe, paging_init_frames, used-paging_init}
use kernel_v.Paging.Identity.{paging_init-walk}
use kernel_v.Paging.Walk.{walk}
use kernel_v.Pmm.Bitmap.{used}
use kernel_v.Pmm.Supply.{free_frames, free_frames-same}
use kernel_v.Samples.{machine}

-- 32 bytes of the bitmap are set.
abbrev pub low_machine : Kernel
low_machine = record machine {
  ram = λ x. if leb 0x90000 x && ltb x 0x90020 then 0xFF else 0;
  total_frames = 512;
  used_frames = 256;
  max_frame_idx = 512;
}

low_used : (g : ℕ) → g < 256 → used low_machine g ≡ true
low_used g h = holds_below_sound 256 (λ f. used low_machine f) g refl h

abbrev pub started : Kernel
started = paging_init low_machine

pub started-IsSafe : IsSafe started
started-IsSafe = paging_init-IsSafe low_machine refl (omega arith) (omega arith) refl low_used

low_left : free_frames low_machine ≡ 256
low_left = refl

pub started_left : free_frames started ≡ 256
started_left =
    free_frames-same low_machine started (omega arith) (paging_init_frames low_machine).1
      (λ g h. used-paging_init low_machine g refl)
    ∙ low_left

-- The same machine with no frame to give.
abbrev full_machine : Kernel
full_machine = record low_machine { total_frames = 256; max_frame_idx = 256 }

abbrev pub full : Kernel
full = paging_init full_machine

pub full-IsSafe : IsSafe full
full-IsSafe = paging_init-IsSafe full_machine refl (omega arith) (omega arith) refl low_used

full_left : free_frames full_machine ≡ 0
full_left = refl

pub none_left : free_frames full ≡ 0
none_left =
    free_frames-same full_machine full (omega arith) (paging_init_frames full_machine).1
      (λ g h. used-paging_init full_machine g refl)
    ∙ full_left

-- A machine with the frames of its first 4 MB used, and frames above them.
abbrev pub high_machine : Kernel
high_machine = record machine {
  ram = λ x. if leb 0x90000 x && ltb x 0x90080 then 0xFF else 0;
  total_frames = 2048;
  used_frames = 1024;
  max_frame_idx = 2048;
}

abbrev pub high_started : Kernel
high_started = paging_init high_machine

used_low : (g : ℕ) → g < 1024 → used high_machine g ≡ true
used_low g h = holds_below_sound 1024 (λ f. used high_machine f) g refl h

pub high_started-used : (g : ℕ) → g < 1024 → used high_started g ≡ true
high_started-used g h = used-paging_init high_machine g refl ∙ used_low g h

pub high_started_free : used high_started 1024 ≡ false
high_started_free = used-paging_init high_machine 1024 refl

pub high_started-IsSafe : IsSafe high_started
high_started-IsSafe =
    paging_init-IsSafe high_machine refl (omega arith) (omega arith) refl
      (λ g h. used_low g (omega (arith, h)))

pub started_total : started.total_frames ≡ 512
started_total = (paging_init_frames low_machine).1

pub high_started_total : high_started.total_frames ≡ 2048
high_started_total = (paging_init_frames high_machine).1

-- What is mapped above the identity map: nothing.
pub high_started-walk : (a : ℕ) → 2 ^ 22 ≤ a → a < 2 ^ 32 → walk high_started a ≡ none
high_started-walk a low h = (paging_init-walk a high_machine h).2 ∙ rw (le→ltb a (2 ^ 22) low) refl
