-- ===== src/Loader/Map.antt =====
-- The loop `.e820_loop` of bootloader/stage2.asm over the map of the BIOS.
use kernel_v.Base.{
  ℕ, suc, ◌+◌, ◌*◌, ◌≤◌, ◌<◌, ◌≡◌, ◌≢◌, ◌⊎◌, refl, sym, ap, ap₂, ◌∙◌, arith, List, [], ◌∷◌, some,
  inl, inr, length, ◌==◌, false, true, subst,
}
use kernel_v.Loader.{
  Answer, refuses, gives, Bios, MapLoop, smap, next_entry, e820_loop, store_entry,
}
use kernel_v.Loader.Entries.{
  MemoryAlone, MemoryAlone-trans, store_entry-MemoryAlone, IsEntry, entry_at-store_entry,
  ram-store_entry, entry_at-same,
}
use kernel_v.MemoryMap.{E820Entry}
use kernel_v.MemoryMap.Read.{entry_at, entries_from}

-- A BIOS that answers the calls from `ebx` on with the entries in order: each answer has the
-- signature, and the last one a next `ebx` of 0, or the call after it sets the carry.
abbrev pub Serves : (ℕ → Answer) → (ebx : ℕ) → List E820Entry → Type 0
Serves e820 ebx [] = e820 ebx ≡ refuses
Serves e820 ebx (e ∷ es) =
    IsEntry e
    × ((next : ℕ) × (e820 ebx ≡ gives smap next e)
        × (((next ≡ 0) × (es ≡ [])) ⊎ ((next ≢ 0) × Serves e820 next es)))

-- The loop stored the entries from slot `n` on, and wrote nothing below and nothing above them.
pub record Stored (n : ℕ) (es : List E820Entry) (l l' : MapLoop) : Type 0 where
  pub count : l'.memmap_count ≡ n + length es
  pub entries : entries_from (length es) n l'.kernel ≡ es
  pub outside :
      (x : ℕ)
      → (x < 0x5000 + 24 * n) ⊎ (0x5000 + 24 * (n + length es) ≤ x)
      → l'.kernel.ram x ≡ l.kernel.ram x
  pub memory : MemoryAlone l.kernel l'.kernel

-- One entry in front of the others.
module _ (bios : Bios) (n : ℕ) (e : E820Entry) (es : List E820Entry) (l : MapLoop)
    (word : IsEntry e) (at : l.di ≡ 0x5000 + 24 * n) (count : l.memmap_count ≡ n)
    (fits : n + suc (length es) ≤ 128) where
  abbrev after_entry : ℕ → MapLoop
  after_entry ebx = next_entry ebx e l

  ebx-next : (ebx : ℕ) → (after_entry ebx).ebx ≡ ebx
  unfolding next_entry
  ebx-next ebx = refl

  at-next : (ebx : ℕ) → (after_entry ebx).di ≡ 0x5000 + 24 * (n + 1)
  unfolding next_entry
  at-next ebx = omega (arith, at, fits)

  count-next : (ebx : ℕ) → (after_entry ebx).memmap_count ≡ n + 1
  unfolding next_entry
  count-next ebx = omega (arith, count, fits)

  ram-next :
      (ebx x : ℕ)
      → (x < 0x5000 + 24 * n) ⊎ (0x5000 + 24 * n + 24 ≤ x)
      → (after_entry ebx).kernel.ram x ≡ l.kernel.ram x
  unfolding next_entry
  ram-next ebx x off = ram-store_entry l.di e l.kernel x (omega (arith, at, off))

  slot-next : (ebx : ℕ) → entry_at (0x5000 + 24 * n) (after_entry ebx).kernel ≡ e
  unfolding next_entry
  slot-next ebx =
      ap (λ (a : ℕ). entry_at a (store_entry l.di e l.kernel)) (sym at)
      ∙ entry_at-store_entry l.di e l.kernel word

  memory-next : (ebx : ℕ) → MemoryAlone l.kernel (after_entry ebx).kernel
  unfolding next_entry
  memory-next ebx = store_entry-MemoryAlone l.di e l.kernel

  Stored-cons :
      (ebx : ℕ) (l' : MapLoop) → Stored (n + 1) es (after_entry ebx) l' → Stored n (e ∷ es) l l'
  unfolding entries_from
  Stored-cons ebx l' s = record {
    count = omega (arith, s.count);
    entries =
        ap₂ (λ (d : E820Entry) (ds : List E820Entry). d ∷ ds)
          (entry_at-same (0x5000 + 24 * n) (after_entry ebx).kernel l'.kernel
              (λ x low high. s.outside x (inl (omega (arith, high))))
            ∙ slot-next ebx)
          s.entries;
    outside = λ x off. s.outside x (omega (arith, off)) ∙ ram-next ebx x (omega (arith, off));
    memory =
        MemoryAlone-trans l.kernel (after_entry ebx).kernel l'.kernel (memory-next ebx) s.memory;
  }

Stored-nil : (n : ℕ) (l : MapLoop) → l.memmap_count ≡ n → Stored n [] l l
unfolding entries_from
Stored-nil n l count = record {
  count = omega (arith, count);
  entries = refl;
  outside = λ x off. refl;
  memory = refl;
}

-- With a round for each entry and one more, the loop ends with the entries stored.
pub e820_loop-Stored :
    (es : List E820Entry) (bios : Bios) (n : ℕ) (l : MapLoop)
    → Serves bios.e820 l.ebx es
    → l.di ≡ 0x5000 + 24 * n
    → l.memmap_count ≡ n
    → n + length es ≤ 128
    → (l' : MapLoop) × (e820_loop (suc (length es)) bios l ≡ some l') × Stored n es l l'
unfolding e820_loop
e820_loop-Stored [] bios n l served at count fits =
    (l, rw (served, e820_loop) refl, Stored-nil n l count)
e820_loop-Stored (e ∷ es) bios n l (word, (next, answer, inl (last, rest))) at count fits =
    let l₁ : MapLoop = next_entry next e l in
    let test : (next == 0) ≡ true = ground (arith, last) in
    let none_left : Stored (n + 1) es l₁ l₁ =
      subst (λ (q : List E820Entry). Stored (n + 1) q l₁ l₁) (sym rest)
        (Stored-nil (n + 1) l₁ (count-next bios n e es l word at count fits next)) in
    (
      l₁,
      rw (answer, e820_loop, test) refl,
      Stored-cons bios n e es l word at count fits next l₁ none_left,
    )
e820_loop-Stored (e ∷ es) bios n l (word, (next, answer, inr (on, rest))) at count fits =
    let l₁ : MapLoop = next_entry next e l in
    let r =
      e820_loop-Stored es bios (n + 1) l₁
        (subst (λ (b : ℕ). Serves bios.e820 b es)
          (sym (ebx-next bios n e es l word at count fits next)) rest)
        (at-next bios n e es l word at count fits next)
        (count-next bios n e es l word at count fits next) (omega (arith, fits)) in
    let test : (next == 0) ≡ false = ground (arith, on) in
    (
      r.0,
      rw (answer, e820_loop, test) r.1,
      Stored-cons bios n e es l word at count fits next r.0 r.2,
    )
