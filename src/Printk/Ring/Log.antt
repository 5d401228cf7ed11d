-- ===== src/Printk/Ring/Log.antt =====
-- What the log buffer promises: it holds the last 1023 bytes that were written, oldest first.
use kernel_v.Base.{
  ℕ, zero, suc, ◌+◌, ◌-◌, ◌%◌, ◌≤◌, ◌<◌, ◌≡◌, ◌≢◌, refl, sym, ap, ap₂, ◌∙◌, arith, List, [], ◌∷◌,
  ◌++◌, Bool-cases, inl, inr, for_range, ◌==◌, ==_iff, get_or, set, take, take_all, drop, length,
  keep_last, keep_last-append, keep_last_all, length-set, length-append, get_or-set_self,
  get_or-set_ne, append-nil, append_assoc, drop-cons,
}
use kernel_v.Printk.Ring.{Ring, ringbuf_putc, ringbuf_write}

pub record IsValid (r : Ring) : Type 0 where
  pub size : length r.log_buffer ≡ 1024
  pub head_in : r.rb_head < 1024
  pub tail_in : r.rb_tail < 1024

-- The `n` bytes from index `t` on, going round at the end of the buffer.
abbrev pub window : List ℕ → ℕ → ℕ → List ℕ
window buf t zero = []
window buf t (suc n) = get_or buf t 0 ∷ window buf ((t + 1) % 1024) n

abbrev pub stored : Ring → ℕ
stored r = (r.rb_head + 1024 - r.rb_tail) % 1024

abbrev pub contents : Ring → List ℕ
contents r = window r.log_buffer r.rb_tail (stored r)

pub length-window : (buf : List ℕ) (t n : ℕ) → length (window buf t n) ≡ n
length-window buf t zero = refl
length-window buf t (suc n) = ap suc (length-window buf ((t + 1) % 1024) n)

-- A window reads its byte `n` last.
window_snoc :
    (buf : List ℕ) (n t : ℕ)
    → t < 1024
    → window buf t (suc n) ≡ window buf t n ++ (get_or buf ((t + n) % 1024) 0 ∷ [])
window_snoc buf zero t h = ap (λ k. get_or buf k 0 ∷ []) (omega arith)
window_snoc buf (suc n) t h =
    ap (λ w. get_or buf t 0 ∷ w)
      (window_snoc buf n ((t + 1) % 1024) (omega arith)
        ∙ ap (λ k. window buf ((t + 1) % 1024) n ++ (get_or buf k 0 ∷ [])) (omega arith))

-- A write outside a window does not show in it.
window-set_off :
    (buf : List ℕ) (i v n t : ℕ)
    → t < 1024
    → i < 1024
    → n ≤ (i + 1024 - t) % 1024
    → window (set buf i v) t n ≡ window buf t n
window-set_off buf i v zero t h k off = refl
window-set_off buf i v (suc n) t h k off =
    ap₂ ◌∷◌ (get_or-set_ne buf i t v 0 (omega arith))
      (window-set_off buf i v n ((t + 1) % 1024) (omega arith) k (omega arith))

-- Writing just past a window and reading on to there appends the byte.
window-set_next :
    (buf : List ℕ) (v t n i : ℕ)
    → length buf ≡ 1024
    → t < 1024
    → i ≡ (t + n) % 1024
    → n < 1024
    → window (set buf i v) t (suc n) ≡ window buf t n ++ (v ∷ [])
window-set_next buf v t n i size h e k =
    window_snoc (set buf i v) n t h
    ∙ ap₂ (λ w b. w ++ (b ∷ [])) (window-set_off buf i v n t h (omega arith) (omega arith))
        (ap (λ j. get_or (set buf i v) j 0) (sym e) ∙ get_or-set_self buf i v 0 (omega arith))

-- A window of `n + 1` bytes that moves on by one drops its oldest byte for the new one.
window-set_full :
    (buf : List ℕ) (v t n i : ℕ)
    → length buf ≡ 1024
    → t < 1024
    → i ≡ (t + suc n) % 1024
    → suc n < 1024
    → window (set buf i v) ((t + 1) % 1024) (suc n)
      ≡ keep_last (suc n) (window buf t (suc n) ++ (v ∷ []))
window-set_full buf v t n i size h e k =
    let w = window buf ((t + 1) % 1024) n ++ (v ∷ []) in
    let one : length (get_or buf t 0 ∷ w) - suc n ≡ 1 = omega (
      arith,
      length-append (window buf ((t + 1) % 1024) n) (v ∷ []),
      length-window buf ((t + 1) % 1024) n,
    ) in
    window-set_next buf v ((t + 1) % 1024) n i size (omega arith) (omega arith) (omega arith)
    ∙ rw one refl

pub ringbuf_putc-IsValid : (ch : ℕ) {r : Ring} → IsValid r → IsValid (ringbuf_putc ch r)
unfolding ringbuf_putc
ringbuf_putc-IsValid ch {r} v = ground (arith, length-set r.log_buffer r.rb_head ch)

-- One byte: it is appended, and the oldest is dropped where 1023 are stored.
pub contents-ringbuf_putc :
    (ch : ℕ) {r : Ring}
    → IsValid r
    → contents (ringbuf_putc ch r) ≡ keep_last 1023 (contents r ++ (ch ∷ []))
unfolding ringbuf_putc
contents-ringbuf_putc ch {r} v = elim (Bool-cases ((r.rb_head + 1) % 1024 == r.rb_tail)) [
  | inl e ↦ rw e (full ((==_iff _ _).0 e))
  | inr e ↦ rw e (room (λ p. absurd (cc (e, (==_iff _ _).1 p))))
]
  where
    full :
        (r.rb_head + 1) % 1024 ≡ r.rb_tail
        → window
            (set r.log_buffer r.rb_head ch)
            ((r.rb_tail + 1) % 1024)
            (((r.rb_head + 1) % 1024 + 1024 - (r.rb_tail + 1) % 1024) % 1024)
          ≡ keep_last 1023 (contents r ++ (ch ∷ []))
    full wrapped =
        let n : ℕ = stored r - 1 in
        let old : stored r ≡ suc n = omega arith in
        let new : ((r.rb_head + 1) % 1024 + 1024 - (r.rb_tail + 1) % 1024) % 1024 ≡ suc n =
          omega arith in
        let all : 1023 ≡ suc n = omega arith in
        rw new (
          window-set_full r.log_buffer ch r.rb_tail n r.rb_head v.size v.tail_in (omega arith)
            (omega arith))
        ∙ ap₂ (λ k m. keep_last k (window r.log_buffer r.rb_tail m ++ (ch ∷ []))) (sym all)
            (sym old)

    room :
        (r.rb_head + 1) % 1024 ≢ r.rb_tail
        → window
            (set r.log_buffer r.rb_head ch)
            r.rb_tail
            (((r.rb_head + 1) % 1024 + 1024 - r.rb_tail) % 1024)
          ≡ keep_last 1023 (contents r ++ (ch ∷ []))
    room apart =
        let new : ((r.rb_head + 1) % 1024 + 1024 - r.rb_tail) % 1024 ≡ suc (stored r) =
          omega arith in
        rw new (
          window-set_next r.log_buffer ch r.rb_tail (stored r) r.rb_head v.size v.tail_in
            (omega arith) (omega arith))
        ∙ sym (
            keep_last_all 1023 (contents r ++ (ch ∷ [])) (
              omega (
                arith,
                length-append (contents r) (ch ∷ []),
                length-window r.log_buffer r.rb_tail (stored r),
              )))

module _ (str : List ℕ) where
  abbrev rounds : ℕ → ℕ → Ring → Ring
  rounds n i r = for_range n i (λ k. ringbuf_putc (get_or str k 0)) r

  rounds-IsValid : (n i : ℕ) {r : Ring} → IsValid r → IsValid (rounds n i r)
  unfolding for_range
  rounds-IsValid zero i v = v
  rounds-IsValid (suc n) i v = rounds-IsValid n (i + 1) (ringbuf_putc-IsValid (get_or str i 0) v)

  contents-rounds :
      (n i : ℕ) {r : Ring}
      → IsValid r
      → i + n ≤ length str
      → contents (rounds n i r) ≡ keep_last 1023 (contents r ++ take n (drop i str))
  unfolding for_range
  contents-rounds zero i {r} v h = sym (
      rw (append-nil (contents r)) (
        keep_last_all 1023 (contents r)
          (omega (arith, length-window r.log_buffer r.rb_tail (stored r)))))
  contents-rounds (suc n) i {r} v h =
      let c : ℕ = get_or str i 0 in
      let later = take n (drop (i + 1) str) in
      contents-rounds n (i + 1) (ringbuf_putc-IsValid c v) (omega arith)
      ∙ ap (λ b. keep_last 1023 (b ++ later)) (contents-ringbuf_putc c v)
      ∙ keep_last-append 1023 (contents r ++ (c ∷ [])) later
      ∙ ap (keep_last 1023) (append_assoc (contents r) (c ∷ []) later)
      ∙ ap (λ t. keep_last 1023 (contents r ++ take (suc n) t))
          (sym (drop-cons i str 0 (omega arith)))

-- Writing `n` bytes of a string of at least that length: the log then holds the last 1023 bytes of
-- what it held followed by what was written, and stays valid.
pub ringbuf_write_lem :
    (str : List ℕ) (n : ℕ) {r : Ring}
    → IsValid r
    → n ≤ length str
    → IsValid (ringbuf_write str n r)
      × (contents (ringbuf_write str n r) ≡ keep_last 1023 (contents r ++ take n str))
unfolding ringbuf_write
ringbuf_write_lem str n v h = (rounds-IsValid str n 0 v, contents-rounds str n 0 v (omega arith))

-- A whole string.
pub ringbuf_write_all :
    (str : List ℕ) {r : Ring}
    → IsValid r
    → contents (ringbuf_write str (length str) r) ≡ keep_last 1023 (contents r ++ str)
ringbuf_write_all str {r} v =
    (ringbuf_write_lem str (length str) v (omega arith)).1
    ∙ ap (λ t. keep_last 1023 (contents r ++ t)) (take_all (length str) str (omega arith))
