-- ===== src/Paging/Low.antt =====
-- Where the tables of kernel/memory/paging.c stand, which reaches them by the identity map of the
-- first 4 MB alone.
use kernel_v.Base.{ℕ, ◌+◌, ◌*◌, ◌≤◌, ◌<◌, subst, sym, ◌∙◌, arith, inl, inr}
use mathlib.Core.Option.{some-injective}
use kernel_v.Kernel.{Kernel}
use kernel_v.Paging.Data.{directory-written, total-written}
use kernel_v.Paging.Mapping.{TablesBelow, TablesBelow-same}
use kernel_v.Paging.Memory.{store32}
use kernel_v.Paging.Safe.{IsSafe, directory_off_bitmap}
use kernel_v.Paging.{paging_init}
use kernel_v.Paging.Start.{linked_first, paging_init_frames}
use kernel_v.Paging.Steps.{
  Step, Steps, allocates, frees, reserves, maps, stores, prints, done, more, step_maps,
  Steps-IsSafe,
}
use kernel_v.Pmm.Alloc.{Searched, pmm_alloc_frame-Searched}
use kernel_v.Pmm.Free.{pmm_free_frame-Kept}
use kernel_v.Pmm.Reserve.{Kept, pmm_set_frame_bitmap-Reserved}

-- All frames that are counted, and all tables, lie below frame `n`.
pub record IsLow (n : ℕ) (k : Kernel) : Type 0 where
  pub few : k.total_frames ≤ n
  pub below : TablesBelow n k

pub paging_init-IsLow :
    (n : ℕ) (k : Kernel) → 0x81 < n → k.total_frames ≤ n → IsLow n (paging_init k)
paging_init-IsLow n k first few = record {
  few = omega (arith, (paging_init_frames k).1, few);
  below = λ i h present. omega (arith, linked_first i k h present, first);
}

Kept-IsLow : (n : ℕ) {k k' : Kernel} → IsSafe k → Kept k k' → IsLow n k → IsLow n k'
Kept-IsLow n {k} {k'} s kept low = record {
  few = omega (arith, kept.total_frames, low.few);
  below =
      TablesBelow-same k k' n
        (λ i h.
          directory_off_bitmap i k k' h (λ x under. kept.outside x (omega (arith, s.at, under))))
        low.below;
}

searched_kept : {k : Kernel} {lo hi : ℕ} {r : ℕ × Kernel} → Searched k lo hi r → Kept k r.1
searched_kept (inl a) = a.kept
searched_kept (inr e) = e.kept

pub Step-IsLow : (n : ℕ) {k k' : Kernel} → Step k k' → IsSafe k → IsLow n k → IsLow n k'
Step-IsLow n {k} allocates s low = Kept-IsLow n s (searched_kept (pmm_alloc_frame-Searched k)) low
Step-IsLow n {k} (frees addr high no_table) s low = Kept-IsLow n s (pmm_free_frame-Kept addr k) low
Step-IsLow n {k} {k'} (reserves start end h e) s low =
    let r = pmm_set_frame_bitmap-Reserved start end k h s.small in
    subst (IsLow n) (some-injective (r.0) k' (sym (r.1) ∙ e)) (Kept-IsLow n s r.2.kept low)
Step-IsLow n {k} {k'} (maps v p f hv hp e) s low =
    let m = step_maps v p f k k' s hv hp e in
    record {
      few = omega (arith, m.total, low.few);
      below = m.bound n (λ even. inl low.few) low.below;
    }
Step-IsLow n {k} (stores f j value high no_table h) s low = record {
  few = omega (arith, total-written f j value k s high no_table h, low.few);
  below =
      TablesBelow-same k (store32 (f * 4096 + 4 * j) value k) n
        (directory-written f j value k s high no_table h) low.below;
}
Step-IsLow n (prints fmt args) s low = record { few = low.few; below = low.below }

-- From a safe state whose tables lie below frame `n`, with no more than `n` frames counted, the tables
-- lie below it after any steps, and no more than `n` frames are counted. The first 4 MB have 1024
-- frames.
pub Steps-IsLow : (n : ℕ) {k k' : Kernel} → Steps k k' → IsSafe k → IsLow n k → IsLow n k'
Steps-IsLow n done s low = low
Steps-IsLow n (more steps step) s low =
    Step-IsLow n step (Steps-IsSafe steps s) (Steps-IsLow n steps s low)
