-- ===== src/Printk/Format/Correct.antt =====
-- `my_vsnprintf` as a whole.
use kernel_v.Base.{
  ℕ, suc, ◌-◌, ◌≤◌, ◌<◌, ◌≡◌, ◌⊎◌, refl, arith, inl, inr, List, [], Bool, false, some, length, take,
  ◌==◌,
}
use kernel_v.Printk.Format.{Arg, Buffer, c_string, my_vsnprintf}
use kernel_v.Printk.Format.Emit.{emit}
use kernel_v.Printk.Format.Spec.{Renders}
use kernel_v.Printk.Format.Spec.Loop.{format_loop-Renders}

-- Where format and arguments read `t` and the buffer is not empty, the call is defined and writes
-- the first `size - 1` bytes of `t`, if no `%p` stands in the format or all of `t` fits.
pub my_vsnprintf-Renders :
    {pointers : Bool} (size : ℕ) (fmt t : List ℕ) (args : List Arg)
    → Renders pointers (c_string fmt) args t
    → 0 < size
    → (pointers ≡ false) ⊎ (length t < size)
    → my_vsnprintf size fmt args ≡ some (take (size - 1) t)
unfolding my_vsnprintf emit
my_vsnprintf-Renders {pointers} size fmt t args r h fits =
    let e : (size == 0) ≡ false = ground arith in
    let start : Buffer = record { out = []; room = size - 1 } in
    rw (e, format_loop-Renders (suc (length (c_string fmt))) start r (omega arith) (fitting fits))
      refl
  where
    fitting : (pointers ≡ false) ⊎ (length t < size) → (pointers ≡ false) ⊎ (length t ≤ size - 1)
    fitting (inl off) = inl off
    fitting (inr enough) = inr (omega arith)
