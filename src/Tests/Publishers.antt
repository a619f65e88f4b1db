-- ===== src/Tests/Publishers.antt =====
-- A publisher whose sending takes no time: the state is the clock and what was sent.
use m_scale.Common.{
  ◌<◌, ◌≤◌, ◌+◌, ◌*◌, ◌/◌, ◌++◌, ℕ, ◌≡◌, refl, true, false, String, some, ok, List, [], ◌∷◌, arith,
}
use m_scale.Publisher.{
  Outside, Publisher, System, closing, waiting, running, stopping, second, new_publisher, handle,
  tick, ticks, test_start, test_status, status, stats, raise_flag, mark_running, renew_stats,
}
use m_scale.Publisher.Budget.{budget, numbered}
use m_scale.Publisher.Pacing.{IsOrderly}
use m_scale.Publisher.Counting.{test_counts}
use m_scale.Publisher.Starting.{at_phase, start_is_lost}
use m_scale.Publisher.Stages.{with_publisher}

record Clock : Type 0 where
  pub now : ℕ
  pub log : List String

abbrev outside : Outside Clock
outside = record {
  time = λ w. (w.now, w);
  sleep = λ d w. record w { now = w.now + d };
  read = λ w. (record { net = "n"; cpu = "c"; mem = "m" }, w);
  send = λ m w. (ok tt, record w { log = w.log ++ m ∷ [] });
}

abbrev clock : Clock → ℕ
clock w = w.now

abbrev sent : Clock → List String
sent w = w.log

outside-IsOrderly : IsOrderly outside clock sent
outside-IsOrderly = record {
  time_is = λ w. (refl, omega arith, refl);
  sleep_is = λ d w. (omega arith, refl);
  read_is = λ w. (omega arith, refl);
  send_is = λ m w. (refl, refl, omega arith);
}

-- Two messages at a time, for 5 microseconds, a thousand messages in a second.
abbrev started : Publisher
started = record (new_publisher 5 2 1000) { start = true; test_status = running }

abbrev noon : Clock
noon = record { now = 12; log = [] }

test_counts_example :
    (n : ℕ) × (e : ℕ) × (u : System Clock) × (n ≤ budget 2 (5 * 1000) 0 5 + 1)
    × (0 < n)
    × (5 ≤ e)
    × (ticks outside (n + 7) (at_phase outside waiting started noon) ≡ u)
    × (u.phase ≡ waiting)
    × (u.publisher.start ≡ false)
    × (u.publisher.test_status ≡ stopping)
    × (u.publisher.stats.msg_cnt ≡ some n)
    × (u.publisher.stats.rate ≡ some (n * second / e))
    × (sent u.world ≡ sent noon ++ numbered 0 n)
unfolding new_publisher
test_counts_example =
    test_counts outside clock sent outside-IsOrderly started noon refl (ground arith) (ground arith)
      (ground arith)

abbrev made_at_noon : System Clock
made_at_noon = at_phase outside waiting (new_publisher 5 2 1000) noon

-- The loop goes on behind the first assignment of `test_start`.
abbrev signalled : System Clock
signalled =
    tick outside (with_publisher outside made_at_noon (raise_flag outside made_at_noon.publisher))

abbrev under_way : System Clock
under_way =
    let s = with_publisher outside signalled (mark_running outside signalled.publisher) in
    at_phase outside s.phase (renew_stats outside s.publisher s.world).0
      (renew_stats outside s.publisher s.world).1

-- Two messages, and the five pieces after the inner loop.
abbrev reported : System Clock
reported = ticks outside 7 under_way

abbrev over : System Clock
over = ticks outside 5 (at_phase outside (closing 6 5) started noon)

abbrev again : System Clock
again = (handle outside test_start over).1

start_is_lost_example :
    ((handle outside test_status over).0 ≡ status stopping)
    × (again.publisher.start ≡ true)
    × ((ticks outside 8 again).phase ≡ waiting)
    × ((ticks outside 8 again).publisher.start ≡ false)
    × ((handle outside test_status (ticks outside 8 again)).0 ≡ status running)
start_is_lost_example =
    start_is_lost outside started 6 5 noon 7 over again (ticks outside 8 again) (ground arith) refl
      refl refl
