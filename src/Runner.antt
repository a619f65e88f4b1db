-- ===== src/Runner.antt =====
-- `BoundaryRunnerBase` of src/main/python/hydra/lib/boundary.py: one measured run for a value of the
-- boundary argument, with its cache and its retries. What the inherited class implements is a `Test`.
pub mod Retries
pub mod Cache
pub mod Searching
use m_scale.Common.{
  ℕ, zero, suc, Bool, true, false, Option, none, some, ◌≡◌, List, [], ◌∷◌, if◌then◌else◌, nat_eq,
  Exec, Result, ok, err, Error, pure, raise, gets, put_state, ◌>>=◌, ◌>>◌,
}
use m_scale.Dict.{Dict, lookup, insert, has_key}

-- `arg` is the value that `setattr` gave the boundary argument of the options; `world` is the rest.
pub record Runner (Res W : Type 0) : Type 0 where
  pub boundary_first_run : Bool
  pub arg : ℕ
  pub boundary_run_result : Dict ℕ Res
  pub world : W

-- The methods of the class that inherits. They work on the whole object: `rerun_test` of the test
-- classes calls `boundary_setup`, which empties the cache.
pub record Test (Res W : Type 0) : Type 0 where
  pub run_test : Exec (Runner Res W) Res
  pub rerun_test : Exec (Runner Res W) Res
  pub delete_all_launched_apps : Exec (Runner Res W) (Unit {0})

-- An exception is raised again once `try_cnt > 4`.
abbrev pub max_retries : ℕ
max_retries = 4

module _ {Res W : Type 0} where
  unfoldable pub init : ℕ → W → Runner Res W
  init arg w = record { boundary_first_run = true; arg = arg; boundary_run_result = []; world = w }

  unfoldable pub boundary_setup : Runner Res W → Runner Res W
  boundary_setup r = record r { boundary_run_result = [] }

  abbrev pub set_arg : ℕ → Runner Res W → Runner Res W
  set_arg arg r = record r { arg = arg }

  abbrev pub set_first_run : Bool → Runner Res W → Runner Res W
  set_first_run b r = record r { boundary_first_run = b }

  -- `self.boundary_run_result[arg1] = res`
  unfoldable pub remember : ℕ → Result Res × Runner Res W → Result Res × Runner Res W
  remember arg1 (ok v, r) =
      (ok v, record r { boundary_run_result = insert r.boundary_run_result arg1 v })
  remember arg1 (err e, r) = (err e, r)

  unfoldable pub judge :
      {A : Type 0} → (ℕ → Res → A) → Result Res × Runner Res W → Result A × Runner Res W
  judge resfn (ok v, r) = (ok (resfn r.arg v), r)
  judge resfn (err e, r) = (err e, r)

  module _ (t : Test Res W) where
    -- The body of the `try`.
    unfoldable pub attempt : ℕ → Exec (Runner Res W) Res
    attempt arg1 r =
        if r.boundary_first_run
        then (let (res, r') = t.run_test r in
            elim res [ ok v ↦ (ok v, set_first_run false r') | err e ↦ (err e, r') ])
        else t.rerun_test (set_arg arg1 r)

    -- The body of the `except` up to the test of the count.
    unfoldable pub clean_up : Exec (Runner Res W) (Unit {0})
    clean_up r =
        let (d, r') = t.delete_all_launched_apps r in
        elim d [ ok u ↦ (ok u, set_first_run true r') | err e ↦ (err e, r') ]

    -- The `while True` with `left` retries to go: past them the exception is raised again.
    unfoldable pub try_runs : ℕ → ℕ → Exec (Runner Res W) Res
    try_runs zero arg1 r =
        let (res, r1) = attempt arg1 r in
        elim res [
          | ok v ↦ (ok v, r1)
          | err e ↦
              let (d, r2) = clean_up r1 in elim d [ ok u ↦ (err e, r2) | err e2 ↦ (err e2, r2) ]
        ]
    try_runs (suc left) arg1 r =
        let (res, r1) = attempt arg1 r in
        let (d, r2) = clean_up r1 in
        let rest = try_runs left arg1 r2 in
        elim res [ ok v ↦ (ok v, r1) | err e ↦ elim d [ ok u ↦ rest | err e2 ↦ (err e2, r2) ] ]

    unfoldable pub fresh_run : ℕ → Exec (Runner Res W) Res
    unfolding remember
    fresh_run arg1 r = remember arg1 (try_runs max_retries arg1 (set_arg arg1 r))

    -- `resfn` is `boundary_resfn`, of the options' argument and the result.
    unfoldable pub boundary_run : {A : Type 0} → (ℕ → Res → A) → ℕ → Exec (Runner Res W) A
    unfolding judge
    boundary_run resfn arg1 r = elim (lookup r.boundary_run_result arg1) [
      | some v ↦ (ok (resfn r.arg v), r)
      | none ↦ judge resfn (fresh_run arg1 r)
    ]
