-- ===== src/SelfTests/Tests.antt =====
-- kernel/tests on a concrete console.
use kernel_v.Base.{◌≡◌, codes, true}
use kernel_v.Panik.{returns, normal, test}
use kernel_v.Samples.{diag}
use kernel_v.SelfTests.{TestState, run_panik_unit_tests}
use kernel_v.SelfTests.Run.{run_panik_unit_tests_lem}

abbrev fresh_state : TestState
fresh_state = record { diag = diag normal; tests_run = 5; tests_passed = 3; tests_failed = 0 }

run_panik_unit_tests_lem_example :
    (s' : TestState) × (run_panik_unit_tests (codes "kernel/tests/test_panik.c") fresh_state
      ≡ returns s')
    × (s'.tests_run ≡ 8)
    × (s'.tests_passed ≡ 8)
    × (s'.tests_failed ≡ 0)
    × (s'.diag.current_panik_mode ≡ test)
    × (s'.diag.panik_state.panik_call_count ≡ 1)
    × (s'.diag.interrupts ≡ true)
run_panik_unit_tests_lem_example =
    run_panik_unit_tests_lem (codes "kernel/tests/test_panik.c") fresh_state
