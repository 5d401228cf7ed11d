-- ===== src/Boot/Main/Paged.antt =====
-- The stage of `kernel_main` in kernel/main/kernel.c that turns paging on.
use kernel_v.Base.{
  ℕ, ◌+◌, ◌*◌, ◌/◌, ◌^◌, ◌≤◌, ◌<◌, ◌≡◌, ◌≢◌, sym, ap, subst, ◌∙◌, arith, [], take, some, none, ltb,
  if◌then◌else◌, codes,
}
use kernel_v.Boot.Debug.{debug_page_tables}
use kernel_v.Boot.Debug.Shown.{debug_page_tables-Said}
use kernel_v.Boot.Main.{Image, Machine, start_frames, start_paging, read_memory_map}
use kernel_v.Boot.Main.Framed.{Framed, Spared}
use kernel_v.Boot.Main.Frames.{Roomy, start_frames-Framed}
use kernel_v.Boot.Main.Tabled.{tabled, tabled-Said, read_memory_map_lem}
use kernel_v.Kernel.{Kernel, say}
use kernel_v.Kernel.Said.{Said, Said-trans}
use kernel_v.MemoryMap.Usable.{available}
use kernel_v.Panik.{normal}
use kernel_v.Paging.{paging_init}
use kernel_v.Paging.Identity.{paging_init-walk}
use kernel_v.Paging.Mapping.{IsData}
use kernel_v.Paging.Safe.{IsSafe, Said-IsSafe}
use kernel_v.Paging.Start.{paging_init-IsSafe, linked_first, paging_init_frames, used-paging_init}
use kernel_v.Paging.Walk.{walk}
use kernel_v.Pmm.Bitmap.{used}
use kernel_v.Pmm.Region.Again.{reserve_page_table-Said}
use kernel_v.Pmm.Supply.{count_free_below, free_frames, free_frames-same}

-- Paging is on, with the first 4 MB mapped to themselves and nothing else, and `n` frames are left.
pub record Paged (n : ℕ) (k : Kernel) : Type 0 where
  pub safe : IsSafe k
  pub left : n ≤ free_frames k
  pub identity :
      (a : ℕ)
      → a < 2 ^ 32
      → walk k a ≡ (if ltb a (2 ^ 22) then some (a / 4096 * 4096 + 7) else none)
  pub low_data : (g : ℕ) → g ≢ 0x81 → IsData k g

pub Said-Paged : (n : ℕ) {k k' : Kernel} → Said k k' → Paged n k → Paged n k'
Said-Paged n {k} {k'} said p = record {
  safe = Said-IsSafe said p.safe;
  left = omega (arith, p.left, ap (λ (q : Kernel). free_frames q) said.kept);
  identity = λ a h. ap (λ (q : Kernel). walk q a) said.kept ∙ p.identity a h;
  low_data = λ g ne. subst (λ (q : Kernel). IsData q g) (sym said.kept) (p.low_data g ne);
}

paging_init-Paged : (n : ℕ) (k : Kernel) → Framed n k → Paged n (paging_init k)
paging_init-Paged n k f =
    let same = paging_init_frames k in
    let left = free_frames-same k (paging_init k) f.few same.1 (λ g h. used-paging_init k g f.at) in
    record {
      safe = paging_init-IsSafe k f.at f.few f.small f.mode f.low_used;
      left = omega (arith, f.left, left);
      identity = λ a h. (paging_init-walk a k h).2;
      low_data = λ g ne i h present e. ne (sym e ∙ linked_first i k h present);
    }

start_paging-Paged :
    (n : ℕ) (image : Image) (k : Kernel)
    → Framed n k
    → (k' : Kernel) × (start_paging image k ≡ some k')
      × Paged n k'
      × ((g : ℕ) → used k' g ≡ used k g)
unfolding start_paging
start_paging-Paged n image k f =
    let k₁ : Kernel =
      say (codes "Initializing Paging...\n") []
        (say (codes "\n==================================================\n") [] k) in
    let p = Said-Paged n (debug_page_tables-Said (paging_init k₁)) (
      paging_init-Paged n k₁ (record {
        at = f.at;
        few = f.few;
        small = f.small;
        mode = f.mode;
        low_used = f.low_used;
        left = f.left;
      })) in
    let reserved =
      reserve_page_table-Said image.kernel_start image.kernel_end
        (debug_page_tables (paging_init k₁)) (p.safe.low_used 0x80 (omega arith))
        (p.safe.low_used 0x81 (omega arith)) in
    (
      reserved.0,
      reserved.1,
      Said-Paged n reserved.2 p,
      λ g.
          ap (λ (q : Kernel). used q g)
            (Said-trans (debug_page_tables-Said (paging_init k₁)) reserved.2).kept
          ∙ used-paging_init k₁ g f.at,
    )

-- The stages up to that.
pub start_paging-Spared :
    (n : ℕ) (image : Image) (m : Machine)
    → m.kernel.diag.current_panik_mode ≡ normal
    → m.kernel.usable_memory_region ≡ []
    → m.kernel.max_frame_idx ≡ 0
    → Roomy n image (take 32 (available image.e820_map))
    → (k₃ k₄ : Kernel) × (start_frames image (read_memory_map image (tabled image m).kernel)
        ≡ some k₃)
      × (start_paging image k₃ ≡ some k₄)
      × Paged n k₄
      × Spared image (take 32 (available image.e820_map)) 2 k₄
start_paging-Spared n image m mode empty start room =
    let regions = take 32 (available image.e820_map) in
    let said = tabled-Said image m in
    let k₂ : Kernel = (tabled image m).kernel in
    let map =
      read_memory_map_lem image k₂
        (ap (λ (q : Kernel). q.usable_memory_region) said.kept ∙ empty) in
    let frames =
      start_frames-Framed n image (read_memory_map image k₂) (map.2 ∙ said.mode ∙ mode)
        (map.1 ∙ ap (λ (q : Kernel). q.max_frame_idx) said.kept ∙ start)
        (subst (Roomy n image) (sym (map.0)) room) in
    let paging = start_paging-Paged n image frames.0 frames.2 in
    let spared = subst (λ r. Spared image r 2 frames.0) (map.0) frames.3 in
    (
      frames.0,
      paging.0,
      frames.1,
      paging.1,
      paging.2,
      λ l h.
          let same = count_free_below (used paging.0) (used frames.0) l 1 (λ g p q. paging.3 g) in
          omega (arith, spared l h, same),
    )
