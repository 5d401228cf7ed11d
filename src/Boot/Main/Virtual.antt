-- ===== src/Boot/Main/Virtual.antt =====
-- `kernel_main` of kernel/main/kernel.c, with the stack mapped through the tables, paging being on by
-- then.
use kernel_v.Base.{
  sym, subst, ℕ, ◌+◌, ◌^◌, ◌≤◌, ◌<◌, ◌≡◌, refl, ap, ◌∙◌, arith, [], take, Option, some, ◌>>=◌,
  lt→ltb, Bool-cases, ◌==◌, inl, inr,
}
use kernel_v.Boot.{Stage, goes, ◌>>>=◌, of_option}
use kernel_v.Boot.Main.{
  Image, Machine, kernel_main, start_console, start_tables, debug_tables, start_frames,
  start_paging, read_memory_map, load_tss, before_switch, on_kernel,
}
use kernel_v.Boot.Main.Framed.{Spared, withheld}
use kernel_v.Boot.Main.Frames.{Roomy}
use kernel_v.Boot.Main.Paged.{Paged, Said-Paged, start_paging-Spared}
use kernel_v.Boot.Main.Tabled.{tabled, load_tss-Said, before_switch-Said}
use kernel_v.Boot.Stack.Virtual.{after_stage, map_stack_virtual, map_stack_virtual_lem}
use kernel_v.Kernel.{Kernel}
use kernel_v.MemoryMap.Usable.{available}
use kernel_v.Panik.{normal}
use kernel_v.Paging.Mapping.{TablesBelow}
use kernel_v.Paging.Safe.{table_of}
use kernel_v.Pmm.{max_frame}
use kernel_v.Pmm.Bitmap.{used}
use kernel_v.Pmm.Reserve.{count_free}
use kernel_v.Pmm.Supply.{count_free_two, count_free_below}
use kernel_v.Pmm.Init.{max_frame_bound}

-- `none` where an access to a table faults.
pub kernel_main_virtual : Image → Machine → Option (Stage Machine)
kernel_main_virtual image m =
    let m₁ = start_tables image (record m { kernel = start_console m.kernel }) in
    let m₂ = debug_tables image m₁ in
    after_stage
      (on_kernel m₂ (of_option (start_frames image (read_memory_map image m₂.kernel))) >>>= λ m₃.
        on_kernel m₃ (of_option (start_paging image m₃.kernel)))
      λ m₄.
        let m₅ = load_tss image m₄ in
        map_stack_virtual m₅.kernel >>= λ s.
        some (on_kernel m₅ s >>>= λ m₆. goes (record m₆ { kernel = before_switch m₆.kernel }))

-- The only table is the one of the identity map.
first_table : (n : ℕ) (k : Kernel) → Paged n k → TablesBelow 1024 k
first_table n k p i h present = elim (Bool-cases (table_of k i == 0x81)) [
  | inl first ↦ ground arith
  | inr other ↦ absurd (p.low_data (table_of k i) (ground arith) i h present refl)
]

-- The machine that both starts leave: its tables lie in the first 4 MB, and of the frames that nothing
-- withholds no more than 32 are taken.
pub record Left (image : Image) (m m' : Machine) : Type 0 where
  pub through : kernel_main_virtual image m ≡ some (goes m')
  pub on_memory : kernel_main image m ≡ goes m'
  pub below : TablesBelow 1024 m'.kernel
  pub spared : Spared image (take 32 (available image.e820_map)) 32 m'.kernel

-- Two frames go to the trial allocations, and two low ones have to be left.
pub kernel_main_virtual-Left :
    (n l : ℕ) (image : Image) (m : Machine)
    → m.kernel.diag.current_panik_mode ≡ normal
    → m.kernel.usable_memory_region ≡ []
    → m.kernel.max_frame_idx ≡ 0
    → Roomy (30 + n) image (take 32 (available image.e820_map))
    → l < 1024
    → l < max_frame (take 32 (available image.e820_map)) 0
    → 4 ≤ count_free (withheld image (take 32 (available image.e820_map))) l 1
    → (m' : Machine) × Left image m m'
unfolding kernel_main_virtual kernel_main after_stage ◌>>>=◌ of_option
kernel_main_virtual-Left n l image m mode empty start room low top four =
    let r = start_paging-Spared (30 + n) image m mode empty start room in
    let m₄ : Machine = record (tabled image m) { kernel = r.1 } in
    let m₅ : Machine = load_tss image m₄ in
    let k₅ : Kernel = m₅.kernel in
    let said = load_tss-Said image m₄ in
    let p = Said-Paged (30 + n) said r.4 in
    let two = count_free_two (used r.1) l 1 (omega (arith, four, r.5 l top)) in
    let kept = λ (g : ℕ). ap (λ (q : Kernel). used q g) said.kept in
    let stack =
      map_stack_virtual_lem k₅ p.safe
        (λ a h. p.identity a (omega (arith, h)) ∙ rw (lt→ltb a (2 ^ 22) h) refl)
        (first_table (30 + n) k₅ p)
        (two.0, two.1, two.2, omega (arith, two.3, low), kept two.0 ∙ two.4, kept two.1 ∙ two.5)
        (omega (arith, p.left)) in
    let k₆ : Kernel = stack.0 in
    let after = before_switch-Said k₆ in
    (
      record m₅ { kernel = before_switch k₆ },
      record {
        through = rw (r.2, r.3, stack.1) refl;
        on_memory = rw (r.2, r.3, stack.2) refl;
        below = subst (TablesBelow 1024) (sym after.kept) stack.3.reaches.below;
        spared = λ j h.
            let all = max_frame_bound (take 32 (available image.e820_map)) 0 (omega arith) in
            let same = λ (k k' : Kernel) (e : (g : ℕ) → used k' g ≡ used k g).
              count_free_below (used k') (used k) j 1 (λ g q q'. e g) in
            omega (
              arith,
              r.5 j h,
              same r.1 k₅ kept,
              stack.3.spares j (omega (arith, h, all)),
              same k₆ (before_switch k₆) (λ g. ap (λ (q : Kernel). used q g) after.kept),
            );
      },
    )
