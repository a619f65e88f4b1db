-- ===== src/Tests/Rounds.antt =====
-- A round of the ZeroMQ suite on a test that drops messages above a rate of 20000, and threads that end
-- in the order of their numbers.
use m_scale.Common.{
  ℕ, ◌+◌, ◌≡◌, refl, arith, true, false, none, some, ok, [], ◌∷◌, ltb, if◌then◌else◌, contains,
  nat_eq,
}
use m_scale.Integer.{pos}
use m_scale.Scanner.{Measure}
use m_scale.Zmq.RunTest.{Options}
use m_scale.Suites.{Harness}
use m_scale.Suites.MaxRate.{SuiteOptions, zmq_round, round_options}
use m_scale.Suites.Flaky.{Reconnects, zmq_round-Reconnects}
use m_scale.Daemon.Threads.{Os, Threading, join_all}
use m_scale.Daemon.Threads.Joining.{join_all-keeps}

-- Rates in tenths; the state counts the runs.
abbrev measured : ℕ → Measure
measured rate = record {
  status = true;
  rate = if ltb rate 300000 then rate else 300000;
  res = if ltb rate 200000 then pos 0 else pos 100;
}

abbrev toy : Harness Options ℕ
toy = record {
  create = λ o s. (ok tt, s);
  start_appserver = λ s. (ok tt, s);
  stop_appserver = λ s. (ok tt, s);
  set_options = λ o s. (ok tt, s);
  scale_sub_app = λ s. (ok tt, s);
  run = λ rate s. (ok (measured rate), s + 1);
  run_test = λ s. (ok tt, s);
  delete_all_launched_apps = λ s. (ok tt, s);
}

abbrev suite : SuiteOptions
suite = record {
  options = record {
    test_duration = 15;
    msg_batch = 100;
    total_sub_apps = 0;
    c_pub = false;
    c_sub = false;
    slow_clients_percent = 0;
    slow_clients_rate = 0;
    rec_clients_percent = 0;
    rec_clients_rate = 0;
  };
  reconnecting_clients_percent = 0;
  flaky_clients = true;
}

left : (o : SuiteOptions) × (s : ℕ) × (zmq_round toy 10 20 true 30 suite 0 ≡ (ok (some o), s))
unfolding zmq_round m_scale.Suites.MaxRate.find_rates m_scale.Suites.MaxRate.nodrop_rate
    m_scale.Suites.MaxRate.search_below m_scale.Suites.MaxRate.flaky_round
    m_scale.Suites.MaxRate.flaky_searches m_scale.Suites.MaxRate.max_rate
    m_scale.Suites.MaxRate.first_rate m_scale.Suites.prepare m_scale.Scanner.Raising.raising_search
    m_scale.Scanner.Raising.raising_find_max_rate m_scale.Scanner.Raising.guarded
    m_scale.Scanner.search m_scale.Scanner.search_loop m_scale.Scanner.find_max_rate
    m_scale.Scanner.climb_loop m_scale.Scanner.climb_on m_scale.Scanner.note_max
    m_scale.Scanner.advance m_scale.Scanner.weigh m_scale.Scanner.next_inc m_scale.Scanner.is_better
left = (_, _, refl)

zmq_round-Reconnects_example : Reconnects (round_options 60 left.0)
zmq_round-Reconnects_example =
    zmq_round-Reconnects toy 10 20 true 30 60 suite left.0 0 left.1 refl left.2

-- The state is the number of the last thread that has ended; another one ends in each wait.
abbrev os : Os ℕ
os = record {
  start = λ fn daemon w. (w + 1, w);
  join = λ t timeout w. w + 1;
  is_alive = λ t w. ltb w t;
}

abbrev three_threads : Threading
three_threads = record { running_threads = 1 ∷ 5 ∷ 3 ∷ []; thread_id_fn = [] }

join_all-keeps_example :
    (os.is_alive 3 1 ≡ false
      → contains (join_all os none (three_threads, 1)).0.running_threads 3 ≡ false)
    × (contains three_threads.running_threads 3 ≡ true
        → os.is_alive 3 (join_all os none (three_threads, 1)).1 ≡ true
        → contains (join_all os none (three_threads, 1)).0.running_threads 3 ≡ true)
    × (contains three_threads.running_threads 3 ≡ false
        → contains (join_all os none (three_threads, 1)).0.running_threads 3 ≡ false)
join_all-keeps_example =
    join_all-keeps os (λ t u timeout w d. ground (arith, d)) none three_threads 1 3
      (refl, (refl, (refl, tt)))
