-- ===== src/Pmm/Pages.antt =====
-- The page loops of kernel/memory/pmm.c: how many rounds they make, and when they have no end.
use kernel_v.Base.{
  ℕ, zero, suc, ◌+◌, ◌-◌, ◌/◌, ◌%◌, ◌^◌, ◌≤◌, ◌<◌, ◌≡◌, refl, arith, none, some, u32, le→ltb,
  lt→ltb,
}
use kernel_v.Pmm.{for_pages}

module _ {ℓ} {S : Type ℓ} (body : ℕ → S → S) where
  -- The rounds at `n` successive pages.
  unfoldable pub pages : ℕ → ℕ → S → S
  pages zero addr s = s
  pages (suc n) addr s = pages n (addr + 4096) (body addr s)

  -- Up to an end that the address does not step over by wrapping, the loop stops after one round
  -- for each page that begins before the end.
  pub for_pages_stops :
      (rounds n addr end : ℕ) (s : S)
      → end ≤ 2 ^ 32 - 4096
      → n ≡ (end + 4095 - addr) / 4096
      → n < rounds
      → for_pages rounds addr end body s ≡ some (pages n addr s)
  unfolding for_pages pages
  for_pages_stops zero n addr end s h e k = absurd (omega arith)
  for_pages_stops (suc rounds) zero addr end s h e k = rw (le→ltb addr end (omega arith)) refl
  for_pages_stops (suc rounds) (suc n) addr end s h e k =
      let next : u32 (addr + 4096) ≡ addr + 4096 = omega arith in
      rw (lt→ltb addr end (omega arith), next)
        (for_pages_stops rounds n (addr + 4096) end (body addr s) h (omega arith) (omega arith))

  -- Where the last address of the row lies before the end, no number of rounds is enough.
  pub for_pages_endless :
      (rounds addr end : ℕ) (s : S)
      → addr < 2 ^ 32
      → 2 ^ 32 - 4096 + addr % 4096 < end
      → for_pages rounds addr end body s ≡ none
  unfolding for_pages
  for_pages_endless zero addr end s h e = refl
  for_pages_endless (suc rounds) addr end s h e =
      rw (lt→ltb addr end (omega arith))
        (for_pages_endless rounds (u32 (addr + 4096)) end (body addr s) (omega arith) (omega arith))
