-- ===== src/Suites.antt =====
-- The suites of tests: maxrate_test.py, fixed_test.py and batchsize_test.py of zmqtest, rmqtest and
-- kafkatest under src/main/python/hydra. They run a test for several numbers of clients and search for
-- rates with `Scanner`. The test is a `Harness` with a state `S`; the options are those that the suite
-- sets, and the test gets them before each run. Rates are fixed-point numbers, `unit` of them make 1.
pub mod MaxRate
pub mod Batches
pub mod Flaky
pub mod Harnesses
use m_scale.Common.{
  String, ℕ, zero, suc, ◌+◌, ◌*◌, ◌/◌, Bool, true, false, Option, none, some, List, [], ◌∷◌, Exec,
  ok, err, pure, raise, ◌>>=◌, ◌>>◌, system_exit, ltb, if◌then◌else◌,
}
use m_scale.Dict.{Dict}
use m_scale.Scanner.{Measure}
use m_scale.Scanner.Raising.{raising_range}

-- What the suites call of a test.
pub record Harness (O S : Type 0) : Type 0 where
  -- `RunTestZMQ(options, None)`
  pub create : O → Exec S (Unit {0})
  pub start_appserver : Exec S (Unit {0})
  pub stop_appserver : Exec S (Unit {0})
  pub set_options : O → Exec S (Unit {0})
  pub scale_sub_app : Exec S (Unit {0})
  -- `runner.run`, the callback of a scanner
  pub run : ℕ → Exec S Measure
  pub run_test : Exec S (Unit {0})
  pub delete_all_launched_apps : Exec S (Unit {0})

-- `range(start, stop, step)` of so many entries.
abbrev pub steps : ℕ → ℕ → ℕ → List ℕ
steps zero start step = []
steps (suc n) start step = start ∷ steps n (start + step) step

module _ {O S : Type 0} (h : Harness O S) where
  -- The test is made for the first number of clients, and scaled for the others.
  unfoldable pub prepare : Bool → O → Exec S (Unit {0})
  prepare true options = h.create options >> h.start_appserver
  prepare false options = h.set_options options >> h.scale_sub_app

  -- What follows the loops of maxrate_test.py: the suite ends the process.
  unfoldable pub finish : Exec S (Unit {0})
  finish = h.delete_all_launched_apps >> h.stop_appserver >> raise system_exit

  -- `RunTest.__init__` of a runtest.py, with what its option parser left over: any argument ends the
  -- program. `keep_running` waits for `input` before the server is stopped.
  unfoldable pub run_once : Exec S (Unit {0}) → O → Bool → List String → Exec S (Unit {0})
  run_once input options keep_running (a ∷ args) = raise system_exit
  run_once input options keep_running [] = do
    h.create options
    h.start_appserver
    h.run_test
    h.delete_all_launched_apps
    if keep_running then input >> h.stop_appserver else h.stop_appserver

  -- zmqtest/fixed_test.py: 80 clients, 65 rates from 35000 on.
  unfoldable pub zmq_fixed : ℕ → (ℕ → O) → Exec S (Dict ℕ Measure)
  unfolding prepare
  zmq_fixed unit options_for = do
    prepare true (options_for (80 / 10))
    res ← raising_range h.run unit (steps 65 (35000 * unit) (1000 * unit))
    h.delete_all_launched_apps
    h.stop_appserver
    raise system_exit

  -- fixed_test.py of rmqtest, with 100 clients, and of kafkatest, with 30: the rates 10000 and 12000.
  unfoldable pub two_rates : ℕ → ℕ → (ℕ → O) → Exec S (Dict ℕ Measure)
  unfolding prepare
  two_rates unit client_count options_for = do
    prepare true (options_for (client_count / 10))
    res ← raising_range h.run unit (steps 2 (10000 * unit) (2000 * unit))
    h.delete_all_launched_apps
    h.stop_appserver
    raise system_exit
