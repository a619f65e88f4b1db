-- ===== src/Publisher.antt =====
-- The publishers: zmqtest/zmq_pub.py, and rmqtest/rmq_pub.py and kafkatest/kafka_pub.py, whose code
-- is the same up to the call that sends a message. The thread of the daemon calls the handlers
-- while the main loop runs, so the loop is cut into the pieces between which a handler may change
-- what the loop reads. Times are microseconds, which `time.time()` gives, and rates messages per second, rounded down.
pub mod Pacing
pub mod Budget
pub mod Counting
pub mod Starting
pub mod Stages
pub mod Reporting
pub mod Brokers
pub mod Arguments
use Prim.Native.String.{◌++◌ as ◌+++◌}
use m_scale.Common.{
  ℕ, zero, suc, ◌+◌, ◌-◌, ◌*◌, ◌/◌, Bool, true, false, Option, none, some, String, Exec, Result, ok,
  err, Error, zero_division, pure, raise, ◌>>=◌, ◌>>◌, nat_eq, string_eq, ◌==◌, ltb, if◌then◌else◌,
  raised, List, [], ◌∷◌,
}
use m_scale.Hydra.Apps.{str_of_ℕ}

abbrev pub second : ℕ
second = 1000000

-- `test_status`
pub data Status : Type 0 where
  stopped running stopping : Status

-- `psutil.net_io_counters()`, `process.cpu_times()`, `process.memory_info()`, as json.
pub record Reading : Type 0 where
  pub net : String
  pub cpu : String
  pub mem : String

-- `run_data['stats']`: the keys that it has at the time.
pub record PubStats : Type 0 where
  pub start : Option Reading
  pub time_start : Option ℕ
  pub end : Option Reading
  pub time_end : Option ℕ
  pub rate : Option ℕ
  pub msg_cnt : Option ℕ

-- `run_data` and the metrics of the object.
pub record Publisher : Type 0 where
  pub start : Bool
  pub test_status : Status
  pub stats : PubStats
  pub test_duration : ℕ
  pub msg_batch : ℕ
  pub msg_requested_rate : ℕ

-- The clock, `time.sleep`, psutil and the socket of the messages.
pub record Outside (W : Type 0) : Type 0 where
  pub time : W → ℕ × W
  pub sleep : ℕ → W → W
  pub read : W → Reading × W
  pub send : String → Exec W (Unit {0})

-- Where the main loop is: waiting for the signal; in the inner loop, with its counters; behind it,
-- before the time of the end is written; before the rate; before the count; before the readings of the
-- end; before the status; before `start` is taken back; ended by an exception.
pub data Phase : Type 0 where
  waiting : Phase
  sending : (cnt msg_cnt start_time : ℕ) → Phase
  closing rating : (msg_cnt elapsed_time : ℕ) → Phase
  counting : (msg_cnt : ℕ) → Phase
  measuring reporting closed : Phase
  crashed : Error → Phase

pub record System (W : Type 0) : Type 0 where
  pub phase : Phase
  pub publisher : Publisher
  pub world : W

-- What the master asks, and what the handlers answer beside `'ok'`.
pub data Command : Type 0 where
  test_start get_stats test_status : Command
  update_config : (test_duration msg_batch msg_requested_rate : ℕ) → Command

pub data Reply : Type 0 where
  nothing : Reply
  stats : PubStats → Reply
  status : Status → Reply

abbrev pub no_stats : PubStats
no_stats = record {
  start = none;
  time_start = none;
  end = none;
  time_end = none;
  rate = none;
  msg_cnt = none;
}

-- `run_data` and `pub_metrics` of `run`, and `init_pub_metrics`.
unfoldable pub new_publisher : ℕ → ℕ → ℕ → Publisher
new_publisher test_duration msg_batch msg_requested_rate = record {
  start = false;
  test_status = stopped;
  stats = record no_stats { rate = some 0; msg_cnt = some 0 };
  test_duration = test_duration;
  msg_batch = msg_batch;
  msg_requested_rate = msg_requested_rate;
}

-- `"%d %s" % (msg_cnt, "msg%d" % msg_cnt)`
unfoldable pub message : ℕ → String
unfolding str_of_ℕ
message n = str_of_ℕ (suc n) n +++ " msg" +++ str_of_ℕ (suc n) n

-- The time to sleep after a batch.
unfoldable pub delay_for : ℕ → ℕ → ℕ
delay_for expected_time duration =
    let delay = (if ltb duration expected_time then expected_time - duration else 0) in
    if ltb second delay then second else delay

module _ {W : Type 0} (o : Outside W) where
  abbrev pub now : Exec W ℕ
  now w = let (t, w') = o.time w in (ok t, w')

  -- The three assignments of the handler `test_start`; the last evaluates its dict before.
  unfoldable pub raise_flag : Publisher → Publisher
  raise_flag p = record p { start = true }

  unfoldable pub mark_running : Publisher → Publisher
  mark_running p = record p { test_status = running }

  unfoldable pub renew_stats : Publisher → W → Publisher × W
  renew_stats p w =
      let (reading, w1) = o.read w in
      let (t, w2) = o.time w1 in
      (record p { stats = record no_stats { start = some reading; time_start = some t } }, w2)

  -- `test_start`, where the main loop does nothing meanwhile; Publisher.Starting lets it go on.
  unfoldable pub start_test : Publisher → W → Publisher × W
  unfolding raise_flag mark_running renew_stats
  start_test p w = renew_stats (mark_running (raise_flag p)) w

  unfoldable pub change_config : ℕ → ℕ → ℕ → Publisher → Publisher
  change_config test_duration msg_batch msg_requested_rate p = record p {
    test_duration = test_duration;
    msg_batch = msg_batch;
    msg_requested_rate = msg_requested_rate;
  }

  unfoldable pub handle : Command → System W → Reply × System W
  unfolding start_test change_config
  handle test_start s =
      let (p, w) = start_test s.publisher s.world in
      (nothing, record s { publisher = p; world = w })
  handle get_stats s = (stats s.publisher.stats, s)
  handle test_status s = (status s.publisher.test_status, s)
  handle (update_config d b r) s =
      (nothing, record s { publisher = change_config d b r s.publisher })

  -- At the end of a batch: the new `cnt`.
  unfoldable pub pace : Publisher → ℕ → ℕ → ℕ → Exec W ℕ
  unfolding delay_for
  pace p cnt msg_cnt start_time = if ltb cnt p.msg_batch then pure cnt else do
    t ← now
    if p.msg_requested_rate == 0 then raise zero_division else λ w.
        (ok 0, o.sleep (delay_for (msg_cnt * second / p.msg_requested_rate) (t - start_time)) w)

  -- A round of the inner loop.
  unfoldable pub send_round : Publisher → ℕ → ℕ → ℕ → Exec W Phase
  unfolding message pace
  send_round p cnt msg_cnt start_time = do
    o.send (message msg_cnt)
    cnt' ← pace p (cnt + 1) (msg_cnt + 1) start_time
    t ← now
    pure (
        if ltb (t - start_time) p.test_duration
        then sending cnt' (msg_cnt + 1) start_time
        else closing (msg_cnt + 1) (t - start_time))

  -- What is written after the inner loop, into what `run_data['stats']` is at the time. The handlers may
  -- come between these assignments.
  unfoldable pub write_time_end : ℕ → Publisher → Publisher
  write_time_end t p = record p { stats = record p.stats { time_end = some t } }

  unfoldable pub write_rate : Publisher → ℕ → ℕ → Result Publisher
  write_rate p msg_cnt elapsed_time =
      if elapsed_time == 0
      then err zero_division
      else ok
          (record p { stats = record p.stats { rate = some (msg_cnt * second / elapsed_time) } })

  unfoldable pub write_count : ℕ → Publisher → Publisher
  write_count msg_cnt p = record p { stats = record p.stats { msg_cnt = some msg_cnt } }

  -- The three readings of the end are written one after the other; here they are one piece.
  unfoldable pub write_end : Reading → Publisher → Publisher
  write_end reading p = record p { stats = record p.stats { end = some reading } }

  unfoldable pub write_status : Publisher → Publisher
  write_status p = record p { test_status = stopping }

  abbrev pub entered : Result Phase × W → Publisher → System W
  entered (ok ph, w) p = record { phase = ph; publisher = p; world = w }
  entered (err e, w) p = record { phase = crashed e; publisher = p; world = w }

  abbrev pub rated : Result Publisher → ℕ → System W → System W
  rated (ok p) n s = record s { phase = counting n; publisher = p }
  rated (err e) n s = record s { phase = crashed e }

  abbrev pub signalled : Bool → System W → System W
  signalled false s = record s { world = o.sleep second s.world }
  signalled true s = let (t, w) = o.time s.world in record s { phase = sending 0 0 t; world = w }

  abbrev pub tick_from : Phase → System W → System W
  tick_from waiting s = signalled s.publisher.start s
  tick_from (sending cnt n t) s = entered (send_round s.publisher cnt n t s.world) s.publisher
  tick_from (closing n e) s =
      let (t, w) = o.time s.world in
      record { phase = rating n e; publisher = write_time_end t s.publisher; world = w }
  tick_from (rating n e) s = rated (write_rate s.publisher n e) n s
  tick_from (counting n) s = record s { phase = measuring; publisher = write_count n s.publisher }
  tick_from measuring s =
      let (reading, w) = o.read s.world in
      record { phase = reporting; publisher = write_end reading s.publisher; world = w }
  tick_from reporting s = record s { phase = closed; publisher = write_status s.publisher }
  tick_from closed s = record s {
    phase = waiting;
    publisher = record s.publisher { start = false };
  }
  tick_from (crashed e) s = s

  -- The next piece of the main loop.
  unfoldable pub tick : System W → System W
  unfolding send_round write_time_end write_rate write_count write_end write_status
  tick s = tick_from s.phase s

  -- So many pieces of the main loop, with no request between them.
  unfoldable pub ticks : ℕ → System W → System W
  unfolding tick
  ticks zero s = s
  ticks (suc n) s = ticks n (tick s)
