-- ===== src/Pmm/View/Order.antt =====
-- The reservations of kernel/memory/pmm.c, `pmm_set_frame_bitmap`, in either order.
use kernel_v.Base.{
  ℕ, ◌+◌, ◌-◌, ◌/◌, ◌^◌, ◌≤◌, ◌<◌, ◌≡◌, sym, ap, Bool, ◌&&◌, ◌||◌, leb, ◌∙◌, arith, some, ◌>>=◌,
  u32, ltb,
}
use mathlib.Core.Quot
use mathlib.Core.Quot.{Quot, Quot-set}
use kernel_v.Kernel.{Kernel}
use kernel_v.Pmm.{pmm_set_frame_bitmap}
use kernel_v.Pmm.Account.{count_free_reserve}
use kernel_v.Pmm.Bitmap.{used}
use kernel_v.Pmm.Reserve.{Reserved, count_free, count_free_ext, pmm_set_frame_bitmap-Reserved}
use kernel_v.Pmm.View.{SameFrames, view}

-- Two ranges, one after the other and the other way round.
module _ {k a b c d : Kernel} (n f m e : ℕ) where
  counts :
      Reserved n f k a
      → Reserved m e a b
      → Reserved m e k c
      → Reserved n f c d
      → ((g : ℕ) → used b g ≡ used d g)
      → count_free (used k) n f + count_free (used a) m e
        ≡ count_free (used k) m e + count_free (used c) n f
  counts p q p' q' same =
      let top : ℕ = f + n + (e + m) in
      omega (
        arith,
        count_free_reserve (used k) (used a) n f top (omega arith) p.set,
        count_free_reserve (used a) (used b) m e top (omega arith) q.set,
        count_free_reserve (used k) (used c) m e top (omega arith) p'.set,
        count_free_reserve (used c) (used d) n f top (omega arith) q'.set,
        count_free_ext (used b) (used d) top 0 (λ g low. same g),
      )

  Reserved-both :
      Reserved n f k a
      → Reserved m e a b
      → Reserved m e k c
      → Reserved n f c d
      → k.total_frames ≤ 2 ^ 20
      → SameFrames b d
  Reserved-both p q p' q' few =
      let same = λ (g : ℕ).
        q.set g
        ∙ ap (λ (t : Bool). (leb e g && ltb g (e + m)) || t) (p.set g)
        ∙ swap (leb e g && ltb g (e + m)) (leb f g && ltb g (f + n)) (used k g)
        ∙ sym (q'.set g ∙ ap (λ (t : Bool). (leb f g && ltb g (f + n)) || t) (p'.set g)) in
      record {
        frames = λ g small. same g;
        few = omega (arith, q.kept.total_frames, p.kept.total_frames, few);
        total =
            q.kept.total_frames
            ∙ p.kept.total_frames
            ∙ sym (q'.kept.total_frames ∙ p'.kept.total_frames);
        counted =
            omega (arith, p.counted, q.counted, p'.counted, q'.counted, counts p q p' q' same);
      }
    where
      swap : (x y z : Bool) → x || (y || z) ≡ y || (x || z)
      swap x y z = ground arith

-- From any state with a count of 32 bits and at most `2 ^ 20` frames, two reservations, of ranges that
-- may overlap, end in either order, and leave the same view: the same set of used frames below
-- `2 ^ 20`, the same number of frames and the same count.
pub pmm_set_frame_bitmap_comm :
    (start end start' end' : ℕ) (k : Kernel)
    → start < 2 ^ 32
    → start' < 2 ^ 32
    → k.used_frames < 2 ^ 32
    → k.total_frames ≤ 2 ^ 20
    → (a b : Kernel) × (pmm_set_frame_bitmap start end k >>= pmm_set_frame_bitmap start' end'
        ≡ some a)
      × (pmm_set_frame_bitmap start' end' k >>= pmm_set_frame_bitmap start end ≡ some b)
      × (view a ≡ view b)
pmm_set_frame_bitmap_comm start end start' end' k h h' small few =
    let p = pmm_set_frame_bitmap-Reserved start end k h small in
    let q = pmm_set_frame_bitmap-Reserved start' end' p.0 h' (omega (arith, p.2.counted)) in
    let p' = pmm_set_frame_bitmap-Reserved start' end' k h' small in
    let q' = pmm_set_frame_bitmap-Reserved start end p'.0 h (omega (arith, p'.2.counted)) in
    (
      q.0,
      q'.0,
      rw (p.1) (q.1),
      rw (p'.1) (q'.1),
      Quot.sound (
          Reserved-both (u32 (end + 4095) / 4096 - start / 4096) (start / 4096)
            (u32 (end' + 4095) / 4096 - start' / 4096) (start' / 4096) p.2 q.2 p'.2 q'.2 few),
    )
