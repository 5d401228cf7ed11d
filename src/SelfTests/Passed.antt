-- ===== src/SelfTests/Passed.antt =====
-- What an assertion of kernel/tests/test_panik.c that passes leaves.
use kernel_v.Base.{ℕ, ◌+◌, ◌≡◌, refl, ap, subst, ◌∙◌, arith, List, true, ◌==◌}
use kernel_v.Panik.{Diag, Outcome, returns, halts, test, panik, reset_panik_state}
use kernel_v.Panik.Calls.{Ends, final, panik-Ends}
use kernel_v.Panik.Mode.{current_panik_mode-panik}
use kernel_v.Printk.Format.{Arg}
use kernel_v.SelfTests.{TestState, test_assert, after, check_called, begin}

-- In test mode a call of `panik` returns, marked and counted.
pub record Called (d e : Diag) : Type 0 where
  pub mode : e.current_panik_mode ≡ test
  pub panik_called : e.panik_state.panik_called ≡ 1
  pub counted : e.panik_state.panik_call_count ≡ d.panik_state.panik_call_count + 1
  pub interrupts : e.interrupts ≡ d.interrupts

panik-Called :
    (fmt : List ℕ) (args : List Arg) (d : Diag)
    → d.current_panik_mode ≡ test
    → (e : Diag) × (panik fmt args d ≡ returns e) × Called d e
panik-Called fmt args d mode =
    let ends = panik-Ends fmt args d in
    go (panik fmt args d) refl (subst (λ m. Ends m d (panik fmt args d)) mode ends.0) ends.1 ends.2
      (current_panik_mode-panik fmt args d ∙ mode)
  where
    go :
        (o : Outcome Diag)
        → panik fmt args d ≡ o
        → Ends test d o
        → (final o).panik_state.panik_called ≡ 1
        → (final o).panik_state.panik_call_count ≡ d.panik_state.panik_call_count + 1
        → (final o).current_panik_mode ≡ test
        → (e : Diag) × (panik fmt args d ≡ returns e) × Called d e
    go (returns e) same on called count kept =
        (e, same, record { mode = kept; panik_called = called; counted = count; interrupts = on })
    go (halts e) same on called count kept = absurd on

-- From `s` to `s'`, in test mode, `n` assertions ran and all passed.
pub record Passed (n : ℕ) (s s' : TestState) : Type 0 where
  pub mode : s'.diag.current_panik_mode ≡ test
  pub tests_run : s'.tests_run ≡ s.tests_run + n
  pub tests_passed : s'.tests_passed ≡ s.tests_passed + n
  pub tests_failed : s'.tests_failed ≡ s.tests_failed
  pub interrupts : s'.diag.interrupts ≡ s.diag.interrupts
  pub called : s'.diag.panik_state.panik_called ≡ 1
  pub counted : s'.diag.panik_state.panik_call_count ≡ 1

pub Passed-trans :
    (n m : ℕ) {s s' s'' : TestState} → Passed n s s' → Passed m s' s'' → Passed (n + m) s s''
Passed-trans n m a b = record {
  mode = b.mode;
  tests_run = omega (arith, a.tests_run, b.tests_run);
  tests_passed = omega (arith, a.tests_passed, b.tests_passed);
  tests_failed = b.tests_failed ∙ a.tests_failed;
  interrupts = b.interrupts ∙ a.interrupts;
  called = b.called;
  counted = b.counted;
}

-- What a reset and a panic leave.
pub record Panicked (s s' : TestState) : Type 0 where
  pub mode : s'.diag.current_panik_mode ≡ test
  pub tests_run : s'.tests_run ≡ s.tests_run
  pub tests_passed : s'.tests_passed ≡ s.tests_passed
  pub tests_failed : s'.tests_failed ≡ s.tests_failed
  pub interrupts : s'.diag.interrupts ≡ s.diag.interrupts
  pub called : s'.diag.panik_state.panik_called ≡ 1
  pub counted : s'.diag.panik_state.panik_call_count ≡ 1

pub check_Passed :
    (message : List ℕ) {s s' : TestState}
    → Panicked s s'
    → Passed 1 s (test_assert (s'.diag.panik_state.panik_called == 1) message s')
unfolding test_assert
check_Passed message {s} {s'} p =
    let holds : (s'.diag.panik_state.panik_called == 1) ≡ true = ground (arith, p.called) in
    rw holds (record {
      mode = p.mode;
      tests_run = ap (λ (n : ℕ). n + 1) p.tests_run;
      tests_passed = ap (λ (n : ℕ). n + 1) p.tests_passed;
      tests_failed = p.tests_failed;
      interrupts = p.interrupts;
      called = p.called;
      counted = p.counted;
    })

-- A panic after a reset, whatever follows it.
module _ (fmt : List ℕ) (args : List Arg) (s s₁ : TestState)
    (mode : s₁.diag.current_panik_mode ≡ test) (run : s₁.tests_run ≡ s.tests_run)
    (passed : s₁.tests_passed ≡ s.tests_passed) (failed : s₁.tests_failed ≡ s.tests_failed)
    (on : s₁.diag.interrupts ≡ s.diag.interrupts)
    (reset : s₁.diag.panik_state.panik_call_count ≡ 0) where
  pub panics :
      (next : TestState → Outcome TestState)
      → (s₂ : TestState) × (after (panik fmt args s₁.diag) next s₁ ≡ next s₂) × Panicked s s₂
  unfolding after
  panics next =
      let p = panik-Called fmt args s₁.diag mode in
      (
        record s₁ { diag = p.0 },
        rw (p.1) refl,
        record {
          mode = p.2.mode;
          tests_run = run;
          tests_passed = passed;
          tests_failed = failed;
          interrupts = p.2.interrupts ∙ on;
          called = p.2.panik_called;
          counted = p.2.counted ∙ ap (λ (n : ℕ). n + 1) reset;
        },
      )

-- A test of the usual shape.
pub simple :
    (note fmt message : List ℕ) (args : List Arg) (s : TestState)
    → s.diag.current_panik_mode ≡ test
    → (s' : TestState) × (after
          (panik fmt args (begin note s).diag)
          (check_called message)
          (begin note s)
        ≡ returns s')
      × Passed 1 s s'
unfolding reset_panik_state
simple note fmt message args s mode =
    let p = panics fmt args s (begin note s) mode refl refl refl refl refl (check_called message) in
    (_, p.1, check_Passed message p.2)
