-- ===== src/PageFault/Access.antt =====
-- A program that accesses the kernel's heap, served by `page_fault_handler` of
-- kernel/memory/page_fault.c.
use kernel_v.Base.{
  ℕ, ◌+◌, ◌*◌, ◌^◌, ◌≤◌, ◌<◌, ◌≡◌, ◌≢◌, refl, sym, subst, ap, ◌∙◌, arith, List, [], ◌∷◌, none, some,
  Option, inl, length,
}
use kernel_v.Kernel.{Kernel}
use kernel_v.PageFault.{Handled, resumes, stops, faults, PageFaultStack, page_fault_handler}
use kernel_v.PageFault.Handler.{heap, page_fault_handler-Demanded}
use kernel_v.Paging.Safe.{IsSafe}
use kernel_v.Paging.Walk.{walk}
use kernel_v.Paging.Demand.{same_page}
use kernel_v.Pmm.Supply.{free_frames}

-- What follows once the handler has returned.
unfoldable pub then_resume : (Kernel → Handled) → Handled → Handled
then_resume next (resumes k) = next k
then_resume next (stops k) = stops k
then_resume next (faults k) = faults k

unfoldable pub at_mapping : (absent : Handled) → (present : Handled) → Option ℕ → Handled
at_mapping absent present none = absent
at_mapping absent present (some pte) = present

-- The accesses of `addresses`, in order, each with a fault where its page is not mapped; `frame`,
-- `esp` and `ebp` are what a fault finds on the stack and in the registers.
module _ (frame : PageFaultStack) (esp ebp : ℕ) where
  unfoldable pub access : ℕ → Kernel → Handled
  access a k = at_mapping (page_fault_handler frame a esp ebp k) (resumes k) (walk k a)

  pub access_all : List ℕ → Kernel → Handled
  access_all [] k = resumes k
  access_all (a ∷ addresses) k = then_resume (access_all addresses) (access a k)

abbrev pub AllInHeap : List ℕ → Type 0
AllInHeap [] = Unit
AllInHeap (a ∷ addresses) = (0xC1000000 ≤ a) × (a < 0xC2000000) × AllInHeap addresses

abbrev pub AllMapped : List ℕ → Kernel → Type 0
AllMapped [] k = Unit
AllMapped (a ∷ addresses) k = (walk k a ≢ none) × AllMapped addresses k

-- From `k` to `k'`, by `n` accesses at most, pages were mapped, and none mapped otherwise.
pub record Served (n : ℕ) (k k' : Kernel) : Type 0 where
  pub safe : IsSafe k'
  pub still : (w : ℕ) → w < 2 ^ 32 → walk k w ≢ none → walk k' w ≡ walk k w
  pub left : free_frames k ≤ free_frames k' + 2 * n

some_ne_none : (x : Option ℕ) (e : ℕ) → x ≡ some e → x ≢ none
some_ne_none x e p q = absurd (cc (p, q))

Served-trans :
    (n m : ℕ) (k k' k'' : Kernel) → Served n k k' → Served m k' k'' → Served (n + m) k k''
Served-trans n m k k' k'' a b = record {
  safe = b.safe;
  still =
      λ w h mapped. b.still w h (λ e. mapped (sym (a.still w h mapped) ∙ e)) ∙ a.still w h mapped;
  left = omega (arith, a.left, b.left);
}

module _ (frame : PageFaultStack) (esp ebp : ℕ) where
  access-Served :
      (a : ℕ) (k : Kernel)
      → IsSafe k
      → 0xC1000000 ≤ a
      → a < 0xC2000000
      → 2 ≤ free_frames k
      → (k' : Kernel) × (access frame esp ebp a k ≡ resumes k') × Served 1 k k' × (walk k' a ≢ none)
  unfolding access at_mapping
  access-Served a k s low high two = by_walk (walk k a) refl
    where
      by_walk :
          (m : Option ℕ)
          → walk k a ≡ m
          → (k' : Kernel) × (at_mapping
                (page_fault_handler frame a esp ebp k)
                (resumes k)
                (walk k a)
              ≡ resumes k')
            × Served 1 k k'
            × (walk k' a ≢ none)
      by_walk (some e) there = (
        k,
        rw there refl,
        record { safe = s; still = λ w h mapped. refl; left = omega arith },
        some_ne_none (walk k a) e there,
      )
      by_walk none absent =
          let given = page_fault_handler-Demanded frame a esp ebp k s (heap low high) (inl two) in
          let d = given.2 in
          (
            given.0,
            rw absent (given.1),
            record {
              safe = d.safe;
              still = λ w h mapped. d.others w h (λ e. mapped (same_page k a w e ∙ absent));
              left = d.left;
            },
            some_ne_none (walk given.0 a) _ d.maps,
          )

  -- From a safe state with two frames left for each of a list of heap addresses, the accesses of
  -- these addresses in order, a page fault being raised wherever the page is not mapped at that time,
  -- are all made. All the addresses are mapped then, what was mapped before is mapped as it was, and
  -- the state is safe again.
  pub access_all-Served :
      (addresses : List ℕ) (k : Kernel)
      → IsSafe k
      → AllInHeap addresses
      → 2 * length addresses ≤ free_frames k
      → (k' : Kernel) × (access_all frame esp ebp addresses k ≡ resumes k')
        × Served (length addresses) k k'
        × AllMapped addresses k'
  unfolding access_all then_resume
  access_all-Served [] k s inside enough =
      (k, refl, record { safe = s; still = λ w h mapped. refl; left = omega arith }, tt)
  access_all-Served (a ∷ addresses) k s inside enough =
      let first = access-Served a k s (inside.0) (inside.1) (omega (arith, enough)) in
      let k₁ : Kernel = first.0 in
      let rest =
        access_all-Served addresses k₁ (first.2.safe) (inside.2)
          (omega (arith, enough, first.2.left)) in
      (
        rest.0,
        ap (then_resume (access_all frame esp ebp addresses)) (first.1) ∙ rest.1,
        subst (λ n. Served n k rest.0) (omega arith)
            (Served-trans 1 (length addresses) k k₁ rest.0 (first.2) rest.2),
        (λ e. first.3 (sym (rest.2.still a (omega (arith, inside.1)) first.3) ∙ e), rest.3),
      )
