-- ===== src/SelfTests/Run.antt =====
-- The run of kernel/tests/test_panik.c: every assertion passes.
use kernel_v.Base.{ℕ, codes, [], ◌∷◌, ◌+◌, ◌≡◌, refl, ap, ◌∙◌, List, ◌==◌, Bool-cases, inl, inr}
use kernel_v.Panik.{Outcome, returns, PanikState, test, set_panik_mode, reset_panik_state}
use kernel_v.Printk.Format.{text, word}
use kernel_v.SelfTests.{
  TestState, test_assert, after, kassert, bug_on, then_bug_on, then_show_message, assert_func,
  on_diag, check_called, begin, test_null_pointer_panik, test_memory_corruption_panik,
  test_division_by_zero_panik, test_assert_failures, test_stack_overflow_panik,
  test_hardware_fault_panik, test_panik_with_real_formatting, ◌>>>=◌, report_results,
  run_panik_unit_tests, run_focused, start_tests,
}
use kernel_v.SelfTests.Passed.{Passed, Passed-trans, Panicked, check_Passed, panics, simple}

corrupted :
    (s : TestState)
    → s.diag.current_panik_mode ≡ test
    → (s' : TestState) × (test_memory_corruption_panik s ≡ returns s') × Passed 1 s s'
unfolding test_memory_corruption_panik after
corrupted s mode = simple _ _ _ _ s mode

bugged :
    (file : List ℕ) {s s₂ : TestState}
    → Panicked s s₂
    → (s' : TestState) × (then_bug_on file s₂ ≡ returns s') × Passed 2 s s'
unfolding then_bug_on bug_on reset_panik_state
bugged file {s} {s₂} p =
    let s₃ : TestState =
      test_assert (s₂.diag.panik_state.panik_called == 1) (codes "Assert failure triggered panik")
        s₂ in
    let first = check_Passed (codes "Assert failure triggered panik") p in
    let second =
      panics (codes "BUG at %s:%d in %s()\n") (text file ∷ word 106 ∷ text assert_func ∷ []) s₃
        (on_diag reset_panik_state s₃) first.mode refl refl refl refl refl
        (check_called (codes "BUG_ON triggered panik")) in
    (
      test_assert (second.0.diag.panik_state.panik_called == 1) (codes "BUG_ON triggered panik")
          second.0,
      second.1,
      Passed-trans 1 1 first (check_Passed (codes "BUG_ON triggered panik") second.2),
    )

asserted :
    (file : List ℕ) (s : TestState)
    → s.diag.current_panik_mode ≡ test
    → (s' : TestState) × (test_assert_failures file s ≡ returns s') × Passed 2 s s'
unfolding test_assert_failures kassert reset_panik_state
asserted file s mode =
    let s₁ : TestState = begin (codes "Testing: Kernel assertions\n") s in
    let p =
      panics (codes "Assertion Failed: %s %s:%d in %s()\n")
        (text (codes "2 + 2 == 5") ∷ text file ∷ word 99 ∷ text assert_func ∷ []) s s₁ mode refl
        refl refl refl refl (then_bug_on file) in
    let rest = bugged file p.2 in (rest.0, p.1 ∙ rest.1, rest.2)

formatted_lem :
    (s : TestState)
    → s.diag.current_panik_mode ≡ test
    → (s' : TestState) × (test_panik_with_real_formatting s ≡ returns s') × Passed 1 s s'
unfolding test_panik_with_real_formatting then_show_message reset_panik_state
formatted_lem s mode =
    let s₁ : TestState = begin (codes "Testing: Real panik message formatting\n") s in
    let p =
      panics (codes "Unable to mount root fs on unknown-block(%d,%d)") (word 8 ∷ word 1 ∷ []) s s₁
        mode refl refl refl refl refl then_show_message in
    let c = check_Passed (codes "Formatted panik message works") p.2 in
    (
      _,
      p.1,
      record {
        mode = c.mode;
        tests_run = c.tests_run;
        tests_passed = c.tests_passed;
        tests_failed = c.tests_failed;
        interrupts = c.interrupts;
        called = c.called;
        counted = c.counted;
      },
    )

-- Tests in a row.
then_Passed :
    (n m : ℕ) {s : TestState} (o : Outcome TestState) (next : TestState → Outcome TestState)
    → (s' : TestState) × (o ≡ returns s') × Passed n s s'
    → ((s' : TestState)
        → s'.diag.current_panik_mode ≡ test
        → (s'' : TestState) × (next s' ≡ returns s'') × Passed m s' s'')
    → (s'' : TestState) × ((o >>>= next) ≡ returns s'') × Passed (n + m) s s''
unfolding ◌>>>=◌
then_Passed n m o next first later =
    let rest = later first.0 first.2.mode in
    (rest.0, rw (first.1) (rest.1), Passed-trans n m first.2 rest.2)

focused :
    (file : List ℕ) (s : TestState)
    → s.diag.current_panik_mode ≡ test
    → (s' : TestState) × (run_focused file s ≡ returns s') × Passed 8 s s'
unfolding run_focused test_null_pointer_panik test_division_by_zero_panik test_stack_overflow_panik
    test_hardware_fault_panik
focused file s mode =
    then_Passed 7 1 _ _
      (then_Passed 6 1 _ _
        (then_Passed 5 1 _ _
          (then_Passed 3 2 _ _
            (then_Passed 2 1 _ _ (then_Passed 1 1 _ _ (simple _ _ _ _ s mode) corrupted)
              (simple _ _ _ _))
            (asserted file))
          (simple _ _ _ _))
        (simple _ _ _ _))
      formatted_lem

report_kept :
    (s : TestState)
    → let d = report_results s in
      (d.current_panik_mode ≡ s.diag.current_panik_mode)
      × (d.panik_state ≡ s.diag.panik_state)
      × (d.interrupts ≡ s.diag.interrupts)
unfolding report_results
report_kept s = elim (Bool-cases (s.tests_passed == s.tests_run)) [
  | inl e ↦ rw e (refl, refl, refl)
  | inr e ↦ rw e (refl, refl, refl)
]

-- Whatever the state, the run of the panic tests comes to its end, with interrupts as they were: its 8
-- assertions all pass, the panics being marked and, after the last reset, counted once. The mode is
-- then still the one for tests.
pub run_panik_unit_tests_lem :
    (file : List ℕ) (s : TestState)
    → (s' : TestState) × (run_panik_unit_tests file s ≡ returns s')
      × (s'.tests_run ≡ 8)
      × (s'.tests_passed ≡ 8)
      × (s'.tests_failed ≡ s.tests_failed)
      × (s'.diag.current_panik_mode ≡ test)
      × (s'.diag.panik_state.panik_call_count ≡ 1)
      × (s'.diag.interrupts ≡ s.diag.interrupts)
unfolding run_panik_unit_tests set_panik_mode start_tests ◌>>>=◌
run_panik_unit_tests_lem file s =
    let p = focused file (start_tests s) refl in
    let d = p.2 in
    let kept = report_kept p.0 in
    (
      record p.0 { diag = report_results p.0 },
      rw (p.1) refl,
      d.tests_run,
      d.tests_passed,
      d.tests_failed,
      kept.0 ∙ d.mode,
      ap (λ (q : PanikState). q.panik_call_count) (kept.1) ∙ d.counted,
      kept.2 ∙ d.interrupts,
    )
