-- ===== src/Zmq/Rerun/Forgetting.antt =====
-- What `rerun_test` leaves of the cache of the boundary tests.
use m_scale.Common.{zero, suc, ◌≡◌, arith, Option, some, [], Exec, ok, nat_eq, ℕ, suc, ◌∷◌}
use m_scale.Hydra.{Backend}
use m_scale.Zmq.RunTest.{Object, launch_zmq_pub, launch_zmq_sub}
use m_scale.Zmq.Rerun.{
  parse_stats, measure, send_messages, rerun_test, run_test, boundary_setup,
  delete_all_launched_apps, launch_zmq_pub, zmq_test, launch_zmq_sub, Report,
}
use m_scale.Runner.{
  boundary_setup, attempt, try_runs, fresh_run, remember, set_arg, clean_up, max_retries,
}
use m_scale.Zmq.Report.{Report}

module _ {W : Type 0} where
  -- The action leaves the cache as it was.
  abbrev Keeps : {A : Type 0} → Exec (Object W) A → Type 0
  Keeps m = (r : Object W) → (m r).1.boundary_run_result ≡ r.boundary_run_result

  -- If the action returns a result, the cache is empty.
  abbrev Empties : {A : Type 0} → Exec (Object W) (Option A) → Type 0
  Empties {A} m =
      (r : Object W) (v : A) (r' : Object W) → m r ≡ (ok (some v), r') → r'.boundary_run_result ≡ []

  module _ (b : Backend W) (fuel : ℕ) where
    parse_stats-Keeps : Keeps (parse_stats b fuel)
    unfolding parse_stats
    parse_stats-Keeps r = ground arith

    send_messages-Keeps : Keeps (send_messages b fuel)
    unfolding send_messages
    send_messages-Keeps r = ground arith

    measure-Keeps : Keeps (measure b fuel)
    unfolding measure
    measure-Keeps r =
        ground (arith, send_messages-Keeps r, parse_stats-Keeps (send_messages b fuel r).1)

    rerun_test-Empties : Empties (rerun_test b fuel)
    unfolding rerun_test boundary_setup
    rerun_test-Empties r v r' h = ground (arith, h, measure-Keeps (boundary_setup r))

    run_test-Empties : Empties (run_test b fuel)
    unfolding run_test
    run_test-Empties r v r' h =
        let s1 = (delete_all_launched_apps b fuel r).1 in
        let s2 = (launch_zmq_pub b fuel s1).1 in
        let s3 = (launch_zmq_sub b fuel s2).1 in ground (arith, h, rerun_test-Empties s3 v r')

    attempt-Empties : (arg1 : ℕ) → Empties (attempt (zmq_test b fuel) arg1)
    unfolding attempt zmq_test
    attempt-Empties arg1 r v r' h = ground (
      arith,
      h,
      run_test-Empties r v (run_test b fuel r).1,
      rerun_test-Empties (set_arg arg1 r) v r',
    )

    try_runs-Empties : (left arg1 : ℕ) → Empties (try_runs (zmq_test b fuel) left arg1)
    unfolding try_runs
    try_runs-Empties zero arg1 r v r' h =
        let (res, r1) = attempt (zmq_test b fuel) arg1 r in
        ground (arith, h, attempt-Empties arg1 r v r')
    try_runs-Empties (suc left) arg1 r v r' h =
        let r1 = (attempt (zmq_test b fuel) arg1 r).1 in
        let r2 = (clean_up (zmq_test b fuel) r1).1 in
        ground (arith, h, attempt-Empties arg1 r v r', try_runs-Empties left arg1 r2 v r')

    -- A `boundary_run` of `RunTestZMQ` that runs the test and gets a result leaves a cache with
    -- this result alone: the results of all other values are forgotten, so that only a value that
    -- is asked for twice in a row is found there.
    pub fresh_run-forgets :
        (arg1 : ℕ) (r : Object W) (v : Report) (r' : Object W)
        → fresh_run (zmq_test b fuel) arg1 r ≡ (ok (some v), r')
        → r'.boundary_run_result ≡ (arg1, some v) ∷ []
    unfolding fresh_run remember
    fresh_run-forgets arg1 r v r' h =
        let (res, r1) = try_runs (zmq_test b fuel) max_retries arg1 (set_arg arg1 r) in
        ground (arith, h, try_runs-Empties max_retries arg1 (set_arg arg1 r) v r1)
