-- ===== src/Paging/Accounts.antt =====
-- The count of used frames in kernel/memory/pmm.c along any use of the memory management.
use kernel_v.Base.{
  ℕ, ◌+◌, ◌*◌, ◌-◌, ◌/◌, ◌^◌, ◌≤◌, ◌<◌, ◌≡◌, refl, subst, sym, ap, inr, ◌∙◌, arith, true, u32,
}
use mathlib.Core.Option.{some-injective}
use kernel_v.Kernel.{Kernel}
use kernel_v.Paging.{set_entry}
use kernel_v.Paging.Mapping.{used-set_entry, set_entry-ram}
use kernel_v.Paging.Memory.{store32}
use kernel_v.Paging.Safe.{IsSafe}
use kernel_v.Paging.Steps.{
  Step, Steps, allocates, frees, reserves, maps, stores, prints, done, more, step_maps,
  Steps-IsSafe,
}
use kernel_v.Pmm.Account.{
  account, account-same, account-pmm_alloc_frame, account-pmm_free_frame, account-Reserved,
}
use kernel_v.Pmm.Bitmap.{used}
use kernel_v.Pmm.Reserve.{pmm_set_frame_bitmap-Reserved}

-- A step frees no frame that is free.
abbrev pub IsHonest : {k k' : Kernel} → Step k k' → Type 0
IsHonest allocates = Unit
IsHonest {k} (frees addr high no_table) = used k (addr / 4096) ≡ true
IsHonest (reserves start end h e) = Unit
IsHonest (maps v p f hv hp e) = Unit
IsHonest (stores f j value high no_table h) = Unit
IsHonest (prints fmt args) = Unit

abbrev pub AllHonest : {k k' : Kernel} → Steps k k' → Type 0
AllHonest done = Unit
AllHonest (more steps step) = AllHonest steps × IsHonest step

module _ (top : ℕ) (all : top ≡ 2 ^ 20) where
  stored_account :
      (f j value : ℕ) (k : Kernel)
      → IsSafe k
      → 256 ≤ f
      → j < 1024
      → account top (store32 (f * 4096 + 4 * j) value k) ≡ account top k
  unfolding set_entry
  stored_account f j value k s high h =
      account-same top k (store32 (f * 4096 + 4 * j) value k)
        (ap (λ (q : Kernel). q.used_frames) (set_entry-ram f j value k h))
        (λ g below.
          used-set_entry f j value k h s (inr (omega (arith, high))) g (omega (arith, below, all)))

  Step-account :
      {k k' : Kernel} (step : Step k k') → IsHonest step → IsSafe k → account top k' ≡ account top k
  Step-account {k} allocates honest s = account-pmm_alloc_frame top k (omega (arith, s.few, all))
  Step-account {k} (frees addr high no_table) honest s =
      account-pmm_free_frame top addr k (omega (arith, s.few, all)) s.small honest
  Step-account {k} {k'} (reserves start end h e) honest s =
      let r = pmm_set_frame_bitmap-Reserved start end k h s.small in
      subst (λ q. account top q ≡ account top k) (some-injective (r.0) k' (sym (r.1) ∙ e))
        (account-Reserved top (u32 (end + 4095) / 4096 - start / 4096) (start / 4096) k r.0
          (omega (arith, h, all)) r.2)
  Step-account {k} {k'} (maps v p f hv hp e) honest s =
      (step_maps v p f k k' s hv hp e).accounted top (omega (arith, s.few, all))
        (omega (arith, all))
  Step-account {k} (stores f j value high no_table h) honest s = stored_account f j value k s high h
  Step-account (prints fmt args) honest s = refl

  -- With `top` the frames that 32 bits address: from a safe state, along any steps that free no frame
  -- that is free, the count of used frames and the number of free frames below `top` have the same sum,
  -- as a number of 32 bits.
  pub Steps-account :
      {k k' : Kernel} (steps : Steps k k')
      → AllHonest steps
      → IsSafe k
      → account top k' ≡ account top k
  Steps-account done honest s = refl
  Steps-account (more steps step) honest s =
      Step-account step honest.1 (Steps-IsSafe steps s) ∙ Steps-account steps honest.0 s
