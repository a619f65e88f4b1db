-- ===== src/Runner/Cache.antt =====
-- A value that was run is not run again while its result is in the cache.
use m_scale.Common.{
  ℕ, ◌≡◌, arith, some, nat_eq, Result, ok, err, beq_refl, none, Option-cases, inl, inr,
}
use m_scale.Dict.{lookup, lookup-insert}
use m_scale.Runner.{
  remember, judge, try_runs, max_retries, set_arg, Runner, Test, boundary_run, fresh_run, try_runs,
  max_retries, set_arg,
}

module _ {Res W : Type 0} where
  module _ (t : Test Res W) {A : Type 0} (resfn : ℕ → Res → A) where
    judged :
        (arg1 : ℕ) (p : Result Res × Runner Res W) {r' : Runner Res W} {a : A}
        → judge resfn (remember arg1 p) ≡ (ok a, r')
        → boundary_run t resfn arg1 r' ≡ (ok a, r')
    unfolding judge boundary_run remember
    judged arg1 (ok u, q) h =
        ground (arith, lookup-insert q.boundary_run_result arg1 arg1 u, beq_refl arg1)
    judged arg1 (err e, q) h = absurd (cc)

    missing_run :
        (arg1 : ℕ) (r : Runner Res W) {r' : Runner Res W} {a : A}
        → lookup r.boundary_run_result arg1 ≡ none
        → boundary_run t resfn arg1 r ≡ (ok a, r')
        → judge resfn (remember arg1 (try_runs t max_retries arg1 (set_arg arg1 r))) ≡ (ok a, r')
    unfolding boundary_run fresh_run
    missing_run arg1 r missing h = ground arith

    cached_run :
        (arg1 : ℕ) (r : Runner Res W) (v : Res) {r' : Runner Res W} {a : A}
        → lookup r.boundary_run_result arg1 ≡ some v
        → boundary_run t resfn arg1 r ≡ (ok a, r')
        → boundary_run t resfn arg1 r' ≡ (ok a, r')
    unfolding boundary_run
    cached_run arg1 r v cached h = ground arith

    -- After a `boundary_run` that returned, the next one with the same value returns the same, and
    -- changes nothing: no test is run.
    pub boundary_run_again :
        (arg1 : ℕ) (r : Runner Res W) {r' : Runner Res W} {a : A}
        → boundary_run t resfn arg1 r ≡ (ok a, r')
        → boundary_run t resfn arg1 r' ≡ (ok a, r')
    boundary_run_again arg1 r {r'} {a} h = elim (Option-cases (lookup r.boundary_run_result arg1)) [
      | inl missing ↦
          judged arg1 (try_runs t max_retries arg1 (set_arg arg1 r)) (missing_run arg1 r missing h)
      | inr (v, cached) ↦ cached_run arg1 r v cached h
    ]
