-- ===== src/Base/Loops.antt =====
-- Counted loops: `for (i = first; i < first + rounds; i++) s = body i s`.
use Prim.Native.Nat.{ℕ, zero, suc, ◌+◌}

unfoldable pub for_range {ℓ} : {S : Type ℓ} → (rounds first : ℕ) → (ℕ → S → S) → S → S
for_range zero first body s = s
for_range (suc rounds) first body s = for_range rounds (first + 1) body (body first s)
