-- ===== src/Runner/Retries.antt =====
-- How often a test is run before `boundary_run` gives up.
use m_scale.Common.{
  ℕ, zero, suc, ◌+◌, ◌≤◌, ◌≡◌, arith, nat_eq, Result, ok, err, true, false, is_ok, ◌⊎◌, inl, inr,
  Bool-cases,
}
use m_scale.Runner.{
  Runner, Test, boundary_run, fresh_run, remember, judge, try_runs, max_retries, set_arg, attempt,
  clean_up,
}

module _ {Res W : Type 0} (t : Test Res W) (calls : W → ℕ) where
  -- `calls` counts the runs of the test, and deleting the apps is none and raises nothing.
  pub record IsCounting : Type 0 where
    pub runs : (r : Runner Res W) → calls (t.run_test r).1.world ≡ calls r.world + 1
    pub reruns : (r : Runner Res W) → calls (t.rerun_test r).1.world ≡ calls r.world + 1
    pub deletes : (r : Runner Res W) → calls (t.delete_all_launched_apps r).1.world ≡ calls r.world
    pub deleted : (r : Runner Res W) → (t.delete_all_launched_apps r).0 ≡ ok tt

  attempt_calls :
      IsCounting
      → (arg1 : ℕ) (r : Runner Res W) → calls (attempt t arg1 r).1.world ≡ calls r.world + 1
  unfolding attempt
  attempt_calls k arg1 r = ground (arith, k.runs r, k.reruns (set_arg arg1 r))

  clean_up_calls :
      IsCounting
      → (r : Runner Res W)
      → (calls (clean_up t r).1.world ≡ calls r.world)
        × ((clean_up t r).0 ≡ ok tt)
        × ((clean_up t r).1.boundary_first_run ≡ true)
  unfolding clean_up
  clean_up_calls k r = ground (arith, k.deletes r, k.deleted r)

  -- What a bounded number of attempts leaves: no more runs than attempts, and where they all raised,
  -- just as many, with the next run a first one.
  abbrev Tries : ℕ → Runner Res W → Result Res × Runner Res W → Type 0
  Tries n r (res, r') =
      (calls r'.world ≤ calls r.world + n)
      × (is_ok res ≡ false → (calls r'.world ≡ calls r.world + n) × (r'.boundary_first_run ≡ true))

  try_runs-Tries :
      IsCounting → (left arg1 : ℕ) (r : Runner Res W) → Tries (suc left) r (try_runs t left arg1 r)
  unfolding try_runs
  try_runs-Tries k zero arg1 r =
      ground (arith, attempt_calls k arg1 r, clean_up_calls k (attempt t arg1 r).1)
  try_runs-Tries k (suc left) arg1 r =
      let r1 = (attempt t arg1 r).1 in
      let rest = try_runs-Tries k left arg1 (clean_up t r1).1 in
      ground (arith, attempt_calls k arg1 r, clean_up_calls k r1, rest)

  judged-Tries :
      {A : Type 0} (resfn : ℕ → Res → A) (n arg1 : ℕ) (r : Runner Res W)
      (p : Result Res × Runner Res W)
      → Tries n r p
      → (calls (judge resfn (remember arg1 p)).1.world ≤ calls r.world + n)
        × (is_ok (judge resfn (remember arg1 p)).0 ≡ false
            → (calls (judge resfn (remember arg1 p)).1.world ≡ calls r.world + n)
              × ((judge resfn (remember arg1 p)).1.boundary_first_run ≡ true))
  unfolding judge remember
  judged-Tries resfn n arg1 r (ok v, q) h = ground arith
  judged-Tries resfn n arg1 r (err e, q) h = h

run_tries :
    {Res W A : Type 0} (t : Test Res W) (calls : W → ℕ) (resfn : ℕ → Res → A) (arg1 : ℕ)
    (r : Runner Res W)
    → IsCounting t calls
    → (calls (boundary_run t resfn arg1 r).1.world ≤ calls r.world + 5)
      × (is_ok (boundary_run t resfn arg1 r).0 ≡ false
          → (calls (boundary_run t resfn arg1 r).1.world ≡ calls r.world + 5)
            × ((boundary_run t resfn arg1 r).1.boundary_first_run ≡ true))
unfolding boundary_run fresh_run
run_tries t calls resfn arg1 r k =
    let tries = try_runs-Tries t calls k max_retries arg1 (set_arg arg1 r) in
    ground (
      arith,
      judged-Tries t calls resfn 5 arg1 (set_arg arg1 r)
          (try_runs t max_retries arg1 (set_arg arg1 r)) tries,
    )

-- Where `calls` counts the runs of the test, and deleting the apps makes none and never raises: one
-- `boundary_run` runs the test at most five times. It returns, or it has run the test five times and
-- the next `boundary_run` launches the apps again (`boundary_first_run` is set).
pub boundary_run-attempts :
    {Res W A : Type 0} (t : Test Res W) (calls : W → ℕ) (resfn : ℕ → Res → A) (arg1 : ℕ)
    (r : Runner Res W)
    → IsCounting t calls
    → (calls (boundary_run t resfn arg1 r).1.world ≤ calls r.world + 5)
      × ((is_ok (boundary_run t resfn arg1 r).0 ≡ true)
          ⊎ ((calls (boundary_run t resfn arg1 r).1.world ≡ calls r.world + 5)
              × ((boundary_run t resfn arg1 r).1.boundary_first_run ≡ true)))
boundary_run-attempts t calls resfn arg1 r k =
    let (bound, failed) = run_tries t calls resfn arg1 r k in
    (
      bound,
      elim (Bool-cases (is_ok (boundary_run t resfn arg1 r).0)) [
        | inl good ↦ inl good
        | inr bad ↦ inr (failed bad)
      ],
    )
