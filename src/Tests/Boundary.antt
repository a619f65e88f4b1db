-- ===== src/Tests/Boundary.antt =====
-- Searches and runs of a test with known measures.
use m_scale.Common.{
  ℕ, ◌≡◌, ◌+◌, ◌*◌, ◌^◌, ◌≤◌, refl, true, false, none, some, ok, err, key_error, [], ◌∷◌, nat_eq,
  All, is_ok, arith, ltb, ◌⊎◌, if◌then◌else◌, Option, Bool, attribute_error,
}
use m_scale.Integer.{pos, negsuc}
use m_scale.Scanner.{
  Measure, RunFn, Climb, Search, Goal, up, start, advance, weigh, search, find_max_rate, Found,
}
use m_scale.Scanner.Threshold.{threshold, Ends, search_finds_threshold}
use m_scale.Scanner.MaxRate.{doublings, after_doublings, find_max_rate-highest, Any}
use m_scale.Scanner.Defects.{weigh_keeps_worse, search_never_ends}
use m_scale.Runner.{Runner, Test, boundary_run}
use m_scale.Runner.Cache.{boundary_run_again}
use m_scale.Runner.Retries.{boundary_run-attempts}
use m_scale.Scanner.Raising.{raising_search}
use m_scale.Runner.Searching.{IsSteady, search_over_runs}

-- No drops are expected, to 10%.
abbrev no_drops : Goal
no_drops = record { expected_result = pos 0; num = 1; den = 10; minus_one = negsuc 0 }

abbrev two_million : ℕ
two_million = 2000000

-- A system that drops above a load of 2000000.
abbrev system : RunFn (Unit {0})
system v w = (threshold no_drops two_million (pos 5) v, w)

search_finds_threshold_example :
    Ends no_drops two_million (pos 5) (search no_drops 12 system (100 * 2 ^ 12) tt).0
search_finds_threshold_example =
    search_finds_threshold no_drops two_million (pos 5) system 3 4 12 100 (100 * 2 ^ 12) tt
      (record { positive = ground arith; small = ground arith; no_sentinel = refl; worse = refl })
      (λ v w. refl) refl (ground arith) (ground arith) (ground arith) (ground arith)

abbrev after_one : Search
after_one = advance no_drops (start no_drops 8) (threshold no_drops 100 (pos 5) 8)

abbrev bad_measure : Measure
bad_measure = record { status = true; rate = 16; res = pos 3 }

-- Two drops are expected.
abbrev two_drops : Goal
two_drops = record { expected_result = pos 2; num = 1; den = 100; minus_one = negsuc 0 }

abbrev best_so_far : Search
best_so_far = record {
  value = 16;
  last_increase = up 8;
  first_toggle = false;
  cnt = 1;
  inital_toggle_count = 1;
  best_res = pos 1;
  best_rate = 8;
}

abbrev far_off : Measure
far_off = record { status = true; rate = 16; res = pos 900 }

weigh_keeps_worse_example :
    ((weigh two_drops best_so_far far_off).best_res ≡ pos 900)
    × ((weigh two_drops best_so_far far_off).best_rate ≡ 16)
weigh_keeps_worse_example = weigh_keeps_worse two_drops best_so_far far_off refl refl

abbrev drops_always : RunFn (Unit {0})
drops_always v w = (record { status = true; rate = v; res = pos 7 }, w)

search_never_ends_example : (search no_drops 20 drops_always (3 * 2 ^ 20) tt).0 ≡ none
search_never_ends_example =
    search_never_ends no_drops drops_always 20 3 (3 * 2 ^ 20) tt (λ v w. (refl, refl))
      (ground arith) refl

-- A rate that follows the load up to 40; the state counts the runs.
abbrev counted : RunFn ℕ
counted v w = (record { status = true; rate = if ltb v 40 then v else 40; res = pos 0 }, w + 1)

find_max_rate-highest_example :
    (c : Climb) × (n : ℕ) × (top : ℕ) × (find_max_rate 10 counted 300 5 0
      ≡ (some c, after_doublings 10 counted n 5 0))
    × (c.max_value_rate ≡ some top)
    × All (λ m. m.rate ≤ top) (doublings 10 counted n 5 0)
    × Any (λ m. (m.rate ≡ top) × (m.res ≡ c.max_value_drop)) (doublings 10 counted n 5 0)
find_max_rate-highest_example =
    find_max_rate-highest 10 counted 40 300 5 0 (λ u x. ground arith) (ground arith)

-- A test whose first run raises, and which counts its runs.
abbrev flaky : Test ℕ ℕ
flaky = record {
  run_test = λ r.
      (if ltb r.world 1 then err key_error else ok (r.arg + 100), record r { world = r.world + 1 });
  rerun_test = λ r. (ok (r.arg + 200), record r { world = r.world + 1 });
  delete_all_launched_apps = λ r. (ok tt, r);
}

abbrev fresh : Runner ℕ ℕ
fresh = record { boundary_first_run = true; arg = 0; boundary_run_result = []; world = 0 }

abbrev after_run : Runner ℕ ℕ
after_run = record {
  boundary_first_run = false;
  arg = 7;
  boundary_run_result = (7, 107) ∷ [];
  world = 2;
}

boundary_run_again_example : boundary_run flaky (λ a v. v) 7 after_run ≡ (ok 107, after_run)
unfolding boundary_run m_scale.Runner.fresh_run m_scale.Runner.try_runs m_scale.Runner.attempt
    m_scale.Runner.clean_up
boundary_run_again_example = boundary_run_again flaky (λ a v. v) 7 fresh refl

boundary_run-attempts_example :
    ((boundary_run flaky (λ a v. v) 7 fresh).1.world ≤ 5)
    × ((is_ok (boundary_run flaky (λ a v. v) 7 fresh).0 ≡ true)
        ⊎ (((boundary_run flaky (λ a v. v) 7 fresh).1.world ≡ 5)
            × ((boundary_run flaky (λ a v. v) 7 fresh).1.boundary_first_run ≡ true)))
boundary_run-attempts_example =
    boundary_run-attempts flaky (λ n. n) (λ a v. v) 7 fresh
      (record { runs = λ r. refl; reruns = λ r. refl; deletes = λ r. refl; deleted = λ r. refl })

-- A test like those of the program: `rerun_test` uses what `run_test` has set up and raises where that
-- is missing. Its state is then the number of runs; its result, the rate of its options.
abbrev steady_test : Test ℕ (Option ℕ)
steady_test = record {
  run_test = λ r. (ok r.arg, record r { boundary_run_result = []; world = some 1 });
  rerun_test = λ r. elim r.world [
    | none ↦ (err attribute_error, r)
    | some n ↦ (ok r.arg, record r { boundary_run_result = []; world = some (n + 1) })
  ];
  delete_all_launched_apps = λ r. (ok tt, r);
}

-- The first run needs nothing, the others need what that has set up.
abbrev IsSetUp : Bool → Option ℕ → Type 0
IsSetUp true w = Unit {0}
IsSetUp false w = (n : ℕ) × (w ≡ some n)

abbrev told : ℕ → ℕ → Measure
told arg v = threshold no_drops two_million (pos 5) v

abbrev steady_runner : Runner ℕ (Option ℕ)
steady_runner = record {
  boundary_first_run = true;
  arg = 0;
  boundary_run_result = [];
  world = none;
}

steady_test-IsSteady : IsSteady steady_test told (threshold no_drops two_million (pos 5)) IsSetUp
steady_test-IsSteady = record {
  runs = λ r first ready. (
    r.arg,
    record r { boundary_run_result = []; world = some 1 },
    refl,
    refl,
    refl,
    refl,
    first,
    (1, refl),
  );
  reruns = λ r later (n, there). (
    r.arg,
    record r { boundary_run_result = []; world = some (n + 1) },
    ground (arith, there),
    refl,
    refl,
    refl,
    later,
    (n + 1, refl),
  );
}

search_over_runs_example :
    (o : Option Found) × (r' : Runner ℕ (Option ℕ)) × (raising_search
        (boundary_run steady_test told)
        no_drops
        12
        (100 * 2 ^ 12)
        steady_runner
      ≡ (ok o, r'))
    × Ends no_drops two_million (pos 5) o
search_over_runs_example =
    search_over_runs steady_test told no_drops two_million (pos 5) 3 4 12 100 (100 * 2 ^ 12)
      steady_runner IsSetUp
      (record { positive = ground arith; small = ground arith; no_sentinel = refl; worse = refl })
      steady_test-IsSteady tt refl refl (ground arith) (ground arith) (ground arith) (ground arith)
