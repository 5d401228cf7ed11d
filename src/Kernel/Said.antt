-- ===== src/Kernel/Said.antt =====
-- What a message of the kernel leaves alone.
use kernel_v.Base.{ℕ, ◌≡◌, refl, ap, ◌∙◌, List, Bool, true, false, if◌then◌else◌}
use kernel_v.Kernel.{Kernel, say}
use kernel_v.Printk.Format.{Arg}

-- The messages of `k` changed, and nothing else.
pub record Said (k k' : Kernel) : Type 0 where
  pub kept : k' ≡ record k { diag = k'.diag }
  pub interrupts : k'.diag.interrupts ≡ k.diag.interrupts
  pub mode : k'.diag.current_panik_mode ≡ k.diag.current_panik_mode

pub Said-trans : {k k' k'' : Kernel} → Said k k' → Said k' k'' → Said k k''
Said-trans {k} {k'} {k''} a b = record {
  kept = b.kept ∙ ap (λ (q : Kernel). record q { diag = k''.diag }) a.kept;
  interrupts = b.interrupts ∙ a.interrupts;
  mode = b.mode ∙ a.mode;
}

pub Said-refl : (k : Kernel) → Said k k
Said-refl k = record { kept = refl; interrupts = refl; mode = refl }

pub say-Said :
    (fmt : List ℕ) (args : List Arg) {k k' : Kernel} → Said k k' → Said k (say fmt args k')
say-Said fmt args {k} {k'} s = Said-trans s (record { kept = refl; interrupts = refl; mode = refl })

-- One message or another, by a test.
pub Said-if :
    (b : Bool) {k k' k'' : Kernel} → Said k k' → Said k k'' → Said k (if b then k' else k'')
Said-if true s t = s
Said-if false s t = t
