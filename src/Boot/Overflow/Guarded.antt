-- ===== src/Boot/Overflow/Guarded.antt =====
-- The end of `test_stack_overflow` of kernel/main/kernel.c on the stack that `kernel_main` maps.
use kernel_v.Base.{
  ℕ, zero, suc, ◌+◌, ◌*◌, ◌^◌, ◌<◌, ◌≤◌, ◌≡◌, refl, ap, ◌∙◌, arith, none, some, inl, inr, sub32,
  true, leb, Bool-cases, le→leb, leb→le, leb→lt,
}
use kernel_v.Boot.High.{high_stack_entry}
use kernel_v.Boot.High.Heap.{high_stack_entry_lem}
use kernel_v.PageFault.{PageFaultStack, resumes}
use kernel_v.Boot.Main.{Image, Machine}
use kernel_v.Boot.Main.Booted.{Booted}
use kernel_v.Boot.Overflow.{
  Descent, overflows, near_guard, stack_level, at_touch, test_stack_overflow,
}
use kernel_v.Kernel.{Kernel}
use kernel_v.Kernel.Said.{Said, Said-trans, Said-refl, Said-if, say-Said}
use kernel_v.Paging.Walk.{walk}

stack_level-Said : (depth esp : ℕ) (k : Kernel) → Said k (stack_level depth esp k)
unfolding stack_level
stack_level-Said depth esp k =
    let first = say-Said _ _ (Said-refl k) in
    Said-if (near_guard esp) (say-Said _ _ (say-Said _ _ first)) first

module _ (frame_size reach : ℕ) where
  -- From `k₀` and the pointer `esp` at `depth`, the calls end. `levels` more levels follow the first
  -- one and report, the last of them at the pointer `last`; it is close enough to the guard page to
  -- warn. The level after it needs a byte of the guard page, and this is not mapped.
  pub record Overflown (depth esp : ℕ) (k₀ : Kernel) (run : Descent) : Type 0 where
    pub levels : ℕ
    pub last_depth : ℕ
    pub last : ℕ
    pub before : Kernel
    pub ends :
        run
        ≡ overflows (last_depth + 1) (sub32 last frame_size) (stack_level last_depth last before)
    pub depths : last_depth ≡ depth + levels
    pub pointers : esp ≡ last + levels * frame_size
    pub warned : near_guard last ≡ true
    pub guard_low : 0xC2FF0000 ≤ sub32 (sub32 last frame_size) reach
    pub guard_high : sub32 (sub32 last frame_size) reach < 0xC2FF1000
    pub absent :
        walk (stack_level last_depth last before) (sub32 (sub32 last frame_size) reach) ≡ none
    pub said : Said k₀ (stack_level last_depth last before)

  -- One level more in front.
  Overflown-level :
      (depth esp : ℕ) (k₀ : Kernel) (run : Descent)
      → frame_size ≤ esp
      → esp < 2 ^ 32
      → Overflown (depth + 1) (sub32 esp frame_size) k₀ run
      → Overflown depth esp k₀ run
  Overflown-level depth esp k₀ run fits word o = record {
    levels = suc o.levels;
    last_depth = o.last_depth;
    last = o.last;
    before = o.before;
    ends = o.ends;
    depths = omega (arith, o.depths);
    pointers = omega (arith, o.pointers, fits, word);
    warned = o.warned;
    guard_low = o.guard_low;
    guard_high = o.guard_high;
    absent = o.absent;
    said = o.said;
  }

  module _ (k₀ : Kernel) (below : frame_size + reach ≤ 0x1000) (above : 512 ≤ frame_size)
      (mapped : (a : ℕ) → 0xC2FF1000 ≤ a → a < 0xC3000000 → (e : ℕ) × (walk k₀ a ≡ some e))
      (guard : (a : ℕ) → 0xC2FF0000 ≤ a → a < 0xC2FF1000 → walk k₀ a ≡ none) where
    -- The level at `esp` fits and the next one does not.
    last_level :
        (rounds depth esp : ℕ) (k : Kernel)
        → Said k₀ (stack_level depth esp k)
        → 0xC2FF1000 + reach ≤ esp
        → sub32 esp frame_size < 0xC2FF1000 + reach
        → esp < 0xC3000000
        → Overflown depth esp k₀ (
            test_stack_overflow frame_size reach
              (suc rounds)
              (depth + 1)
              (sub32 esp frame_size)
              (stack_level depth esp k))
    unfolding test_stack_overflow at_touch near_guard
    last_level rounds depth esp k said low over high =
        let next : ℕ = sub32 (sub32 esp frame_size) reach in
        let here : 0xC2FF0000 ≤ next = omega (arith, below, low, high) in
        let top : next < 0xC2FF1000 = omega (arith, below, low, over, high) in
        let none_there : walk (stack_level depth esp k) next ≡ none =
          ap (λ (q : Kernel). walk q next) said.kept ∙ guard next here top in
        record {
          levels = 0;
          last_depth = depth;
          last = esp;
          before = k;
          ends = rw none_there refl;
          depths = omega arith;
          pointers = omega arith;
          warned = le→leb esp 0xC2FF2000 (omega (arith, below, low, over, high));
          guard_low = here;
          guard_high = top;
          absent = none_there;
          said = said;
        }

    descends :
        (rounds depth esp : ℕ) (k : Kernel)
        → Said k₀ k
        → 0xC2FF1000 + reach ≤ esp
        → esp < 0xC3000000
        → esp < 0xC2FF1000 + reach + 512 * rounds
        → Overflown depth esp k₀ (test_stack_overflow frame_size reach (suc rounds) depth esp k)
    unfolding test_stack_overflow at_touch
    descends zero depth esp k said low high few = absurd (omega (arith, low, few))
    descends (suc rounds) depth esp k said low high few =
        let here =
          mapped (sub32 esp reach) (omega (arith, below, low, high))
            (omega (arith, below, low, high)) in
        let there : walk k (sub32 esp reach) ≡ some (here.0) =
          ap (λ (q : Kernel). walk q (sub32 esp reach)) said.kept ∙ here.1 in
        let reported = Said-trans said (stack_level-Said depth esp k) in
        rw there (elim (Bool-cases (leb (0xC2FF1000 + reach) (sub32 esp frame_size))) [
          | inl fits ↦
              Overflown-level depth esp k₀ _ (omega (arith, below, low)) (omega (arith, high)) (
                descends rounds (depth + 1) (sub32 esp frame_size) (stack_level depth esp k)
                  reported (leb→le _ _ fits) (omega (arith, below, low, high))
                  (omega (arith, above, below, low, high, few)))
          | inr over ↦ last_level rounds depth esp k reported low (leb→lt _ _ over) high
        ])

  -- After `kernel_main` and the heap access of `high_stack_entry`, with a compiler whose calls move
  -- the stack pointer down by 512 bytes at least, and by a page at most together with what they need
  -- below it, the recursion of `test_stack_overflow`, begun where its first level fits, ends within
  -- 121 levels. Its last level has warned of the guard page, the next one needs a byte of the guard
  -- page, which is not mapped, and nothing but the messages has changed.
  pub test_stack_overflow-Overflown :
      (frame : PageFaultStack) (esp ebp cur_esp tss_cr3 sp n : ℕ) (image : Image) (m m' : Machine)
      → Booted n image m m'
      → 2 ≤ n
      → 512 ≤ frame_size
      → frame_size + reach ≤ 0x1000
      → 0xC2FF1000 + reach ≤ sp
      → sp < 0xC3000000
      → (k : Kernel) × (high_stack_entry frame esp ebp cur_esp tss_cr3 m'.kernel ≡ resumes k)
        × Overflown 0 sp k (test_stack_overflow frame_size reach 121 0 sp k)
  test_stack_overflow-Overflown frame esp ebp cur_esp tss_cr3 sp n image m m' booted two above below
        low high =
      let entered = high_stack_entry_lem frame esp ebp cur_esp tss_cr3 n image m m' booted two in
      let k : Kernel = entered.1 in
      let e = entered.5 in
      (
        k,
        entered.4,
        descends k below above
            (λ a l h.
              let b = booted.stack a l h in
              (b.0 * 4096 + 3, e.others a (omega (arith, h)) (omega (arith, l)) ∙ b.3))
            (λ a l h.
              e.others a (omega (arith, h)) (omega (arith, l))
              ∙ booted.unmapped a (omega (arith, l)) (omega (arith, h)) (inl h))
            120 0 sp k (Said-refl k) low high (omega (arith, high)),
      )
