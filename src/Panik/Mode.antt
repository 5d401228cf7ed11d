-- ===== src/Panik/Mode.antt =====
-- The mode of kernel/lib/panik.c under a call of `panik`.
use kernel_v.Base.{ℕ, ◌≡◌, refl, List, [], Option, none, some}
use kernel_v.Panik.{PanikMode, normal, test, Diag, panik, formatted, after_format, counted}
use kernel_v.Panik.Calls.{final}
use kernel_v.Printk.Format.{Arg, my_vsnprintf}

after_format-mode :
    (mode : PanikMode) (msg : List ℕ) (d : Diag)
    → (final (after_format mode msg d)).current_panik_mode ≡ d.current_panik_mode
unfolding after_format
after_format-mode normal msg d = refl
after_format-mode test msg d = refl

-- A call leaves the mode as it is.
pub current_panik_mode-panik :
    (fmt : List ℕ) (args : List Arg) (d : Diag)
    → (final (panik fmt args d)).current_panik_mode ≡ d.current_panik_mode
unfolding panik formatted
current_panik_mode-panik fmt args d = go (my_vsnprintf 256 fmt args)
  where
    go :
        (r : Option (List ℕ))
        → (final
            (formatted r (record d { panik_state = counted d.panik_state }))).current_panik_mode
          ≡ d.current_panik_mode
    go none = after_format-mode d.current_panik_mode [] _
    go (some msg) = after_format-mode d.current_panik_mode msg _
