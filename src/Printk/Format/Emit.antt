-- ===== src/Printk/Format/Emit.antt =====
-- The loops of `my_vsnprintf` that write write as much of their text as there is room for.
use kernel_v.Base.{
  ℕ, zero, suc, ◌-◌, ◌≡◌, sym, ap, ◌∙◌, arith, List, [], ◌∷◌, ◌++◌, Bool-cases, inl, inr, ◌==◌,
  ==_iff, append-nil, append_assoc, length, take, replicate, take-append, take-nil, take_all,
  length-append, false,
}
use kernel_v.Printk.Format.{Buffer, put, put_all, put_pad}

-- Room permitting, a text is appended.
unfoldable pub emit : List ℕ → Buffer → Buffer
emit xs b = record { out = b.out ++ take b.room xs; room = b.room - length xs }

pub emit-nil : (b : Buffer) → emit [] b ≡ b
unfolding emit
emit-nil b = λ i. record {
  out = (ap (λ t. b.out ++ t) (take-nil b.room) ∙ append-nil b.out) i;
  room = same i;
}
  where
    same : b.room - 0 ≡ b.room
    same = omega arith

pub emit-append : (xs ys : List ℕ) (b : Buffer) → emit ys (emit xs b) ≡ emit (xs ++ ys) b
unfolding emit
emit-append xs ys b = λ i. record { out = text i; room = left i }
  where
    text :
        (b.out ++ take b.room xs) ++ take (b.room - length xs) ys ≡ b.out ++ take b.room (xs ++ ys)
    text =
        append_assoc b.out (take b.room xs) (take (b.room - length xs) ys)
        ∙ ap (λ t. b.out ++ t) (sym (take-append b.room xs ys))

    left : b.room - length xs - length ys ≡ b.room - length (xs ++ ys)
    left = omega (arith, length-append xs ys)

pub emit_full : (xs : List ℕ) (b : Buffer) → b.room ≡ 0 → emit xs b ≡ b
unfolding emit
emit_full xs b h = λ i. record { out = text i; room = left i }
  where
    text : b.out ++ take b.room xs ≡ b.out
    text = rw h (append-nil b.out)

    left : b.room - length xs ≡ b.room
    left = omega arith

pub put-emit : (c : ℕ) (b : Buffer) → put c b ≡ emit (c ∷ []) b
unfolding put emit
put-emit c b = elim (Bool-cases (b.room == 0)) [
  | inl e ↦ rw e (sym (emit_full (c ∷ []) b ((==_iff _ _).0 e)))
  | inr e ↦ rw e (λ i. record { out = b.out ++ text e i; room = b.room - 1 })
]
  where
    text : (b.room == 0) ≡ false → c ∷ [] ≡ take b.room (c ∷ [])
    text e = sym (take_all b.room (c ∷ []) (ground arith))

pub put_all-emit : (xs : List ℕ) (b : Buffer) → put_all xs b ≡ emit xs b
unfolding put_all
put_all-emit [] b = sym (emit-nil b)
put_all-emit (c ∷ xs) b = elim (Bool-cases (b.room == 0)) [
  | inl e ↦ rw e (sym (emit_full (c ∷ xs) b ((==_iff _ _).0 e)))
  | inr e ↦
      rw e (put_all-emit xs (put c b) ∙ ap (emit xs) (put-emit c b) ∙ emit-append (c ∷ []) xs b)
]

pub put_pad-emit : (n c : ℕ) (b : Buffer) → put_pad n c b ≡ emit (replicate n c) b
unfolding put_pad
put_pad-emit zero c b = sym (emit-nil b)
put_pad-emit (suc n) c b = elim (Bool-cases (b.room == 0)) [
  | inl e ↦ rw e (sym (emit_full (c ∷ replicate n c) b ((==_iff _ _).0 e)))
  | inr e ↦ rw e (
      put_pad-emit n c (put c b)
      ∙ ap (emit (replicate n c)) (put-emit c b)
      ∙ emit-append (c ∷ []) (replicate n c) b)
]
