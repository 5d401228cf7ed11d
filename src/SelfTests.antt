-- ===== src/SelfTests.antt =====
-- kernel/tests: the tests that the kernel runs on itself, and the macros of kernel/include/assert.h.
pub mod Passed
pub mod Run
pub mod Console
mod Tests
use kernel_v.Base.{
  ℕ, ◌+◌, ◌-◌, List, [], ◌∷◌, ◌++◌, Bool, not, ◌==◌, if◌then◌else◌, codes, for_range,
}
use kernel_v.Panik.{
  Diag, Outcome, returns, halts, PanikMode, test, panik, reset_panik_state, set_panik_mode,
}
use kernel_v.Printk.{printk}
use kernel_v.Printk.Level.{kern_err, kern_warning, kern_notice, kern_info}
use kernel_v.Printk.Format.{Arg, word, text}

-- `printk` with a level in front, as the macros `pr_…` call it.
abbrev tell : (level : List ℕ) → List ℕ → List Arg → Diag → Diag
tell level fmt args d = record d { console = (printk (level ++ fmt) args d.console).1 }

abbrev pub pr_err : List ℕ → List Arg → Diag → Diag
pr_err = tell kern_err

abbrev pub pr_warn : List ℕ → List Arg → Diag → Diag
pr_warn = tell kern_warning

abbrev pub pr_notice : List ℕ → List Arg → Diag → Diag
pr_notice = tell kern_notice

abbrev pub pr_info : List ℕ → List Arg → Diag → Diag
pr_info = tell kern_info

pub record TestState : Type 0 where
  pub diag : Diag
  pub tests_run : ℕ
  pub tests_passed : ℕ
  pub tests_failed : ℕ

abbrev pub on_diag : (Diag → Diag) → TestState → TestState
on_diag f s = record s { diag = f s.diag }

-- The macro TEST_ASSERT.
pub test_assert : Bool → List ℕ → TestState → TestState
test_assert condition message s =
    let s₁ = record s { tests_run = s.tests_run + 1 } in
    if condition
    then on_diag (pr_info (codes "[PASS] %s\n") (text message ∷ []))
        (record s₁ { tests_passed = s.tests_passed + 1 })
    else on_diag (pr_err (codes "[FAIL] %s\n") (text message ∷ []))
        (record s₁ { tests_failed = s.tests_failed + 1 })

-- What follows a call that may halt.
pub after : Outcome Diag → (TestState → Outcome TestState) → TestState → Outcome TestState
after (returns d) next s = next (record s { diag = d })
after (halts d) next s = halts (record s { diag = d })

-- The text that the compiler gives for `__FILE__` is a parameter.
pub kassert : (file : List ℕ) → Bool → (expr func : List ℕ) → (line : ℕ) → Diag → Outcome Diag
kassert file holds expr func line d =
    if holds
    then returns d
    else panik (codes "Assertion Failed: %s %s:%d in %s()\n")
        (text expr ∷ text file ∷ word line ∷ text func ∷ []) d

pub bug_on : (file : List ℕ) → Bool → (func : List ℕ) → (line : ℕ) → Diag → Outcome Diag
bug_on file condition func line d =
    if condition
    then panik (codes "BUG at %s:%d in %s()\n") (text file ∷ word line ∷ text func ∷ []) d
    else returns d

-- `TEST_ASSERT(get_panik_state()->panik_called == 1, message);`
abbrev pub check_called : List ℕ → TestState → Outcome TestState
check_called message s = returns (test_assert (s.diag.panik_state.panik_called == 1) message s)

-- The first calls of each test.
abbrev pub begin : List ℕ → TestState → TestState
begin message s = on_diag (λ d. reset_panik_state (pr_notice message [] d)) s

pub test_null_pointer_panik : TestState → Outcome TestState
test_null_pointer_panik s =
    let s₁ = begin (codes "Testing: Null pointer dereference detection\n") s in
    after (panik (codes "Null pointer dereference at %p") (word 0 ∷ []) s₁.diag)
      (check_called (codes "Null pointer panik triggered")) s₁

pub test_memory_corruption_panik : TestState → Outcome TestState
test_memory_corruption_panik s =
    let s₁ = begin (codes "Testing: Memory corruption detection\n") s in
    let magic : ℕ = 0xDEADBEEF in
    let first =
      if not (magic == 0xDEADBEEF)
      then panik (codes "Memory corruption detected: magic=0x%x expected=0x%x")
          (word 0x12345678 ∷ word magic ∷ []) s₁.diag
      else returns s₁.diag in
    after first
      (λ s₂.
        after
          (panik (codes "Stack canary corruption detected at 0x%x") (word 0xDEADBEEF ∷ []) s₂.diag)
          (check_called (codes "Memory corruption panik triggered")) s₂)
      s₁

pub test_division_by_zero_panik : TestState → Outcome TestState
test_division_by_zero_panik s =
    let s₁ = begin (codes "Testing: Division by zero detection\n") s in
    after (panik (codes "Division by zero in kernel code") [] s₁.diag)
      (check_called (codes "Division by zero panik triggered")) s₁

abbrev pub assert_func : List ℕ
assert_func = codes "test_assert_failures"

-- After the failed assertion.
pub then_bug_on : (file : List ℕ) → TestState → Outcome TestState
then_bug_on file s =
    let s₁ = on_diag reset_panik_state (
      test_assert (s.diag.panik_state.panik_called == 1) (codes "Assert failure triggered panik")
        s) in
    after (bug_on file (not (1 == 0)) assert_func 106 s₁.diag)
      (check_called (codes "BUG_ON triggered panik")) s₁

pub test_assert_failures : (file : List ℕ) → TestState → Outcome TestState
test_assert_failures file s =
    let s₁ = begin (codes "Testing: Kernel assertions\n") s in
    after (kassert file (2 + 2 == 5) (codes "2 + 2 == 5") assert_func 99 s₁.diag) (then_bug_on file)
      s₁

pub test_stack_overflow_panik : TestState → Outcome TestState
test_stack_overflow_panik s =
    let s₁ = begin (codes "Testing: Stack overflow detection\n") s in
    after
      (panik (codes "Stack overflow detected: SP=0x%x limit=0x%x") (word 0x1000 ∷ word 0x2000 ∷ [])
        s₁.diag)
      (check_called (codes "Stack overflow panik triggered")) s₁

pub test_hardware_fault_panik : TestState → Outcome TestState
test_hardware_fault_panik s =
    let s₁ = begin (codes "Testing: Hardware fault handling\n") s in
    after
      (panik (codes "Page fault in kernel mode: CR2=0x%x EIP=0x%x")
        (word 0xDEADBEEF ∷ word 0x12345678 ∷ []) s₁.diag)
      (check_called (codes "Hardware fault panik triggered")) s₁

-- After the call of `panik`.
pub then_show_message : TestState → Outcome TestState
then_show_message s =
    let s₁ =
      test_assert (s.diag.panik_state.panik_called == 1) (codes "Formatted panik message works")
        s in
    returns (
      on_diag (pr_info (codes "panik message: %s\n") (text s₁.diag.panik_state.last_panik_msg ∷ []))
        s₁)

pub test_panik_with_real_formatting : TestState → Outcome TestState
test_panik_with_real_formatting s =
    let s₁ = begin (codes "Testing: Real panik message formatting\n") s in
    after
      (panik (codes "Unable to mount root fs on unknown-block(%d,%d)") (word 8 ∷ word 1 ∷ [])
        s₁.diag)
      then_show_message s₁

infixl 25 ◌>>>=◌
pub ◌>>>=◌ : Outcome TestState → (TestState → Outcome TestState) → Outcome TestState
returns s >>>= next = next s
halts s >>>= next = halts s

pub report_results : TestState → Diag
report_results s =
    let d₁ = pr_notice (codes "\n=== TEST RESULTS ===\n") [] s.diag in
    let d₂ = pr_info (codes "Tests run: %d\n") (word s.tests_run ∷ []) d₁ in
    let d₃ = pr_info (codes "Tests passed: %d\n") (word s.tests_passed ∷ []) d₂ in
    let d₄ = pr_info (codes "Tests failed: %d\n") (word (s.tests_run - s.tests_passed) ∷ []) d₃ in
    let d₅ =
      if s.tests_passed == s.tests_run
      then pr_info (0xE2 ∷ 0x9C ∷ 0x93 ∷ codes " All kernel panik scenarios tested successfully!\n")
          [] d₄
      else pr_err (0xE2 ∷ 0x9C ∷ 0x97 ∷ codes " Some tests failed!\n") [] d₄ in
    let d₆ =
      pr_info (codes "Total panik calls: %d\n") (word d₅.panik_state.panik_call_count ∷ []) d₅ in
    let d₇ = pr_notice (codes "=== END TESTS ===\n") [] d₆ in
    let d₈ = pr_warn (codes "\nTo test REAL panik (system will halt):\n") [] d₇ in
    let d₉ = pr_warn (codes "1. Edit this file and uncomment the manual test\n") [] d₈ in
    let d₁₀ = pr_warn (codes "2. Run: make clean && make kernel && make run\n") [] d₉ in
    pr_warn (codes "WARNING: System will require reset!\n") [] d₁₀

-- The focused tests, in order.
pub run_focused : (file : List ℕ) → TestState → Outcome TestState
run_focused file s =
    test_null_pointer_panik s
    >>>= test_memory_corruption_panik
    >>>= test_division_by_zero_panik
    >>>= test_assert_failures file
    >>>= test_stack_overflow_panik
    >>>= test_hardware_fault_panik
    >>>= test_panik_with_real_formatting

-- The mode for tests, and the counters from 0.
pub start_tests : TestState → TestState
start_tests s =
    let d₁ = pr_notice (codes "=== KERNEL panik TESTS - Real Scenarios ===\n") [] s.diag in
    let d₂ = pr_info (codes "panik mode: TEST (safe for testing)\n") [] (set_panik_mode test d₁) in
    record s { diag = d₂; tests_run = 0; tests_passed = 0 }

pub run_panik_unit_tests : (file : List ℕ) → TestState → Outcome TestState
run_panik_unit_tests file s =
    run_focused file (start_tests s) >>>= λ s'. returns (record s' { diag = report_results s' })
