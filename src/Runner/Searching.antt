-- ===== src/Runner/Searching.antt =====
-- `search` of a Scanner whose callback is `boundary_run`, with its cache: the two halves of boundary.py
-- together.
use m_scale.Common.{
  ℕ, ◌+◌, ◌*◌, ◌^◌, ◌≤◌, ◌<◌, ◌≡◌, refl, arith, some, Option, ok, Exec, [], ◌∷◌, Option-cases, inl,
  inr, nat_eq, nat_beq_iff, false, true, Bool, Result, subst, sym, Bool-cases,
}
use m_scale.Dict.{lookup}
use m_scale.Integer.{ℤ}
use m_scale.Scanner.{Measure, RunFn, Goal, Found, search}
use m_scale.Scanner.Threshold.{threshold, IsFair, Ends, search_finds_threshold}
use m_scale.Scanner.Raising.{raising_search}
use m_scale.Scanner.Raising.Simulation.{raising_search-follows}
use m_scale.Runner.{
  Runner, Test, boundary_run, fresh_run, try_runs, attempt, remember, judge, set_arg, set_first_run,
}

-- `Ready first w`: with the flag `boundary_first_run` at `first`, the next run of the test is one that
-- works in the state `w`: what `rerun_test` needs is there once `run_test` has been called.
module _ {Res W : Type 0} (t : Test Res W) (resfn : ℕ → Res → Measure) (at : ℕ → Measure)
    (Ready : Bool → W → Type 0) where
  -- A run of the test, first or not, that returns where it is ready, with the measure `at` for the rate
  -- that the options say; it leaves the cache empty as `rerun_test` does, and `rerun_test` ready.
  abbrev Returns : Bool → Exec (Runner Res W) Res → Type 0
  Returns first run =
      (r : Runner Res W)
      → r.boundary_first_run ≡ first
      → Ready first r.world
      → (v : Res) × (r' : Runner Res W) × (run r ≡ (ok v, r'))
        × (resfn r.arg v ≡ at r.arg)
        × (r'.arg ≡ r.arg)
        × (r'.boundary_run_result ≡ [])
        × (r'.boundary_first_run ≡ first)
        × Ready false r'.world

  pub record IsSteady : Type 0 where
    pub runs : Returns true t.run_test
    pub reruns : Returns false t.rerun_test

  -- The cache holds no more than the result for the rate of the options.
  pub record IsSound (r : Runner Res W) : Type 0 where
    pub cached :
        (v : ℕ) (res : Res)
        → lookup r.boundary_run_result v ≡ some res
        → (v ≡ r.arg) × (resfn v res ≡ at v)
    pub ready : Ready r.boundary_first_run r.world

  abbrev Measured : ℕ → Result Res × Runner Res W → Type 0
  Measured arg1 p =
      (v : Res) × (r' : Runner Res W) × (p ≡ (ok v, r'))
      × (resfn arg1 v ≡ at arg1)
      × (r'.arg ≡ arg1)
      × (r'.boundary_run_result ≡ [])
      × (r'.boundary_first_run ≡ false)
      × Ready false r'.world

  attempt_lem :
      IsSteady
      → (arg1 : ℕ) (r : Runner Res W) → r.arg ≡ arg1
      → Ready r.boundary_first_run r.world
      → Measured arg1 (attempt t arg1 r)
  unfolding attempt
  attempt_lem k arg1 r e ready = elim (Bool-cases r.boundary_first_run) [
    | inl first ↦
        let (v, r1, q, m, a, c, still, again) =
          k.runs r first (subst (λ f. Ready f r.world) first ready) in
        (
          v,
          set_first_run false r1,
          ground (arith, first, q),
          ground (arith, e, m),
          ground (arith, e, a),
          c,
          refl,
          again,
        )
    | inr later ↦
        let (v, r1, q, m, a, c, still, again) =
          k.reruns (set_arg arg1 r) later (subst (λ f. Ready f r.world) later ready) in
        (v, r1, ground (arith, later, q), m, a, c, still, again)
  ]

  fresh_run_lem :
      IsSteady
      → (arg1 : ℕ) (r : Runner Res W) → Ready r.boundary_first_run r.world
      → (v : Res) × (r' : Runner Res W) × (fresh_run t arg1 r
          ≡ (ok v, record r' { boundary_run_result = (arg1, v) ∷ [] }))
        × (resfn arg1 v ≡ at arg1)
        × (r'.arg ≡ arg1)
        × Ready r'.boundary_first_run r'.world
  unfolding fresh_run try_runs remember
  fresh_run_lem k arg1 r ready =
      let (v, r', q, m, a, c, later, again) = attempt_lem k arg1 (set_arg arg1 r) refl ready in
      (v, r', ground (arith, q, c), m, a, subst (λ f. Ready f r'.world) (sym later) again)

  one_entry-IsSound :
      (arg1 : ℕ) (v : Res) (r : Runner Res W)
      → r.arg ≡ arg1
      → resfn arg1 v ≡ at arg1
      → Ready r.boundary_first_run r.world
      → IsSound (record r { boundary_run_result = (arg1, v) ∷ [] })
  one_entry-IsSound arg1 v r a m ready = record {
    cached = λ u res e. ground (arith, nat_beq_iff arg1 u, e, a, m);
    ready = ready;
  }

  empty-IsSound :
      (r : Runner Res W)
      → r.boundary_run_result ≡ []
      → Ready r.boundary_first_run r.world
      → IsSound r
  empty-IsSound r fresh ready = record {
    cached = λ u res e. absurd (ground (arith, e, fresh));
    ready = ready;
  }

  boundary_run-at :
      IsSteady
      → (arg1 : ℕ) (r : Runner Res W) → IsSound r
      → (r' : Runner Res W) × (boundary_run t resfn arg1 r ≡ (ok (at arg1), r')) × IsSound r'
  unfolding boundary_run judge
  boundary_run-at k arg1 r sound = elim (Option-cases (lookup r.boundary_run_result arg1)) [
    | inr (v, there) ↦
        let (same, good) = sound.cached arg1 v there in
        (r, ground (arith, there, same, good), sound)
    | inl missing ↦
        let (v, r', q, m, a, ready) = fresh_run_lem k arg1 r sound.ready in
        (
          record r' { boundary_run_result = (arg1, v) ∷ [] },
          ground (arith, missing, q, m, a),
          one_entry-IsSound arg1 v r' a m ready,
        )
  ]

  -- A runner in which the cache is sound; a run leaves another.
  abbrev Steady : Type 0
  Steady = (r : Runner Res W) × IsSound r

  abbrev steady_run : IsSteady → RunFn Steady
  steady_run k arg1 (r, sound) =
      let (r', q, sound') = boundary_run-at k arg1 r sound in (at arg1, (r', sound'))

-- `search` over `boundary_run` finds a threshold: where `run_test` returns from a state that is ready
-- for it, and `rerun_test` from one that an earlier run has left, each with the measure of a system
-- with the threshold `top` at the rate of the options and with an empty cache, and where the object is
-- ready for its next run at the start and its cache holds nothing. The starting load and the fuel are as in
-- `search_finds_threshold`. Then the search returns without an exception, its status is true, and the
-- best rate is at most `top`, and below it by less than twice the error percentage of `top`.
pub search_over_runs :
    {Res W : Type 0} (t : Test Res W) (resfn : ℕ → Res → Measure) (g : Goal) (top : ℕ) (hi : ℤ)
    (d k fuel u v : ℕ) (r : Runner Res W) (Ready : Bool → W → Type 0)
    → IsFair g top hi
    → IsSteady t resfn (threshold g top hi) Ready
    → Ready r.boundary_first_run r.world
    → r.boundary_run_result ≡ []
    → v ≡ u * 2 ^ fuel
    → v ≤ top
    → top < v * 2 ^ d
    → g.den + g.num ≤ g.num * 2 ^ k
    → d + k + 2 < fuel
    → (o : Option Found) × (r' : Runner Res W) × (raising_search (boundary_run t resfn) g fuel v r
        ≡ (ok o, r'))
      × Ends g top hi o
search_over_runs t resfn g top hi d k fuel u v r Ready fair steady ready fresh fine low reach close
      enough =
    let at = threshold g top hi in
    let sound : IsSound t resfn at Ready r = empty-IsSound t resfn at Ready r fresh ready in
    let f = steady_run t resfn at Ready steady in
    (
      (search g fuel f v (r, sound)).0,
      (search g fuel f v (r, sound)).1.0,
      raising_search-follows g (boundary_run t resfn) (λ x. x.0) f
          (λ n x. (boundary_run-at t resfn at Ready steady n x.0 x.1).1) fuel v (r, sound),
      search_finds_threshold g top hi f d k fuel u v (r, sound) fair (λ n x. refl) fine low reach
          close enough,
    )
