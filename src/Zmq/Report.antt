-- ===== src/Zmq/Report.antt =====
-- `result_parser` and `boundary_resultfn` of `RunTestZMQ` in zmqtest/runtest.py: the result of a
-- test from the statistics of the publisher and of the subscribers. Rates are numbers in fixed
-- point, and quotients of rates are rounded down; other quotients of floats are kept as fractions.
pub mod Tallies
use m_scale.Common.{
  ℕ, zero, suc, ◌+◌, ◌-◌, ◌*◌, ◌/◌, Bool, true, false, not, ◌&&◌, ◌||◌, Option, none, some, String,
  List, [], ◌∷◌, Result, ok, err, Error, zero_division, contains, length, string_eq, nat_eq, ◌==◌,
  ltb, if◌then◌else◌,
}
use m_scale.Hydra.{Stats, Difference}

-- `top / bottom`
pub record Fraction : Type 0 where
  pub top : Difference
  pub bottom : Difference

-- The result; that of the tests for RabbitMQ and Kafka has no `valid_client_cnt`.
pub record Report : Type 0 where
  pub client_count : ℕ
  pub packet_tx : ℕ
  pub average_packets : ℕ
  pub average_rate : ℕ
  pub failing_clients : ℕ
  pub failing_clients_rate : Option ℕ
  pub average_tx_rate : ℕ
  pub valid_client_cnt : Option ℕ
  pub average_packet_loss : Fraction
  pub pub_cpu : Fraction
  pub pub_net_txrate : Fraction
  pub pub_net_rxrate : Fraction

-- The counters of the loop over the clients.
pub record Tally : Type 0 where
  pub bad_clients : ℕ
  pub client_rate : ℕ
  pub bad_client_rate : ℕ
  pub clients_packet_count : ℕ
  pub slow_clients_cnt : ℕ
  pub slow_clients_rate : ℕ
  pub slow_clients_packet_cnt : ℕ
  pub rec_clients_cnt : ℕ
  pub rec_clients_rate : ℕ
  pub rec_clients_packet_cnt : ℕ
  pub rec_cnt : ℕ
  pub valid_client_cnt : ℕ

abbrev pub no_clients : Tally
no_clients = record {
  bad_clients = 0;
  client_rate = 0;
  bad_client_rate = 0;
  clients_packet_count = 0;
  slow_clients_cnt = 0;
  slow_clients_rate = 0;
  slow_clients_packet_cnt = 0;
  rec_clients_cnt = 0;
  rec_clients_rate = 0;
  rec_clients_packet_cnt = 0;
  rec_cnt = 0;
  valid_client_cnt = 0;
}

-- `clients and task_id in clients`, where the property may be missing.
abbrev pub is_among : Option (List String) → String → Bool
is_among none t = false
is_among (some clients) t = contains clients t

-- The three branches of the loop's body; `tx` is `msg_cnt_pub_tx`.
unfoldable pub tally_slow : Tally → Stats → Tally
tally_slow k s = record k {
  slow_clients_rate = k.slow_clients_rate + s.rate;
  slow_clients_packet_cnt = k.slow_clients_packet_cnt + s.msg_cnt;
  slow_clients_cnt = k.slow_clients_cnt + 1;
}

unfoldable pub tally_rec : Tally → Stats → Tally
tally_rec k s = record k {
  rec_clients_rate = k.rec_clients_rate + s.rate;
  rec_clients_packet_cnt = k.rec_clients_packet_cnt + s.msg_cnt;
  rec_clients_cnt = k.rec_clients_cnt + 1;
  rec_cnt = k.rec_cnt + s.reconnect_cnt;
}

unfoldable pub tally_valid : ℕ → Tally → Stats → Tally
tally_valid tx k s =
    let bad = not (s.msg_cnt == tx) in
    record k {
      client_rate = k.client_rate + s.rate;
      clients_packet_count = k.clients_packet_count + s.msg_cnt;
      valid_client_cnt = k.valid_client_cnt + 1;
      bad_clients = if bad then k.bad_clients + 1 else k.bad_clients;
      bad_client_rate = if bad then k.bad_client_rate + s.rate else k.bad_client_rate;
    }

-- The clients that the tests set: `slow_clients` and `reconnecting_clients`.
module _ (slow rec : Option (List String)) (tx : ℕ) where
  abbrev pub is_slow : Stats → Bool
  is_slow s = is_among slow s.task_id || (s.msg_cnt == 0)

  unfoldable pub tally_client : Tally → Stats → Tally
  unfolding tally_slow tally_rec tally_valid
  tally_client k s =
      if is_slow s
      then tally_slow k s
      else if is_among rec s.task_id
      then tally_rec k s
      else tally_valid tx k s

  unfoldable pub tally : Tally → List Stats → Tally
  unfolding tally_client
  tally k [] = k
  tally k (s ∷ stats) = tally (tally_client k s) stats

-- `msg_cnt_pub_tx - (1.0 * count / clients)` as a percentage of `msg_cnt_pub_tx`
abbrev pub packet_loss : ℕ → ℕ → ℕ → Fraction
packet_loss tx count clients = record {
  top = record { plus = 100 * (tx * clients); minus = 100 * count };
  bottom = record { plus = tx * clients; minus = 0 };
}

abbrev pub no_difference : Difference
no_difference = record { plus = 0; minus = 0 }

abbrev pub scaled : ℕ → Difference → Difference
scaled n d = record { plus = n * d.plus; minus = n * d.minus }

abbrev pub or_none : Option Difference → Difference
or_none none = no_difference
or_none (some d) = d

abbrev pub sent : Option (Difference × Difference) → Difference
sent none = no_difference
sent (some (tx, rx)) = tx

abbrev pub received : Option (Difference × Difference) → Difference
received none = no_difference
received (some (tx, rx)) = rx

-- From the counters to the result.
unfoldable pub report : Stats → ℕ → Tally → Report
report p num_subs k = record {
  client_count = num_subs;
  packet_tx = p.msg_cnt;
  average_packets = k.clients_packet_count / k.valid_client_cnt;
  average_rate = k.client_rate / k.valid_client_cnt;
  failing_clients = k.bad_clients;
  failing_clients_rate =
      if ltb 0 k.bad_clients then some (k.bad_client_rate / k.bad_clients) else none;
  average_tx_rate = p.rate;
  valid_client_cnt = some k.valid_client_cnt;
  average_packet_loss = packet_loss p.msg_cnt k.clients_packet_count k.valid_client_cnt;
  pub_cpu = record { top = scaled 100 (or_none p.cpu); bottom = p.time };
  pub_net_txrate = record { top = sent p.net; bottom = p.time };
  pub_net_rxrate = record { top = received p.net; bottom = p.time };
}

-- The divisions, in the source's order: by the valid clients, by the packets sent (for the slow and the
-- reconnecting clients where there are any, and for the loss), by the time of the test.
unfoldable pub result_of : Stats → ℕ → Tally → Result Report
unfolding report
result_of p num_subs k =
    if k.valid_client_cnt == 0
    then err zero_division
    else if p.msg_cnt == 0
    then err zero_division
    else if p.time.plus == p.time.minus
    then err zero_division
    else ok (report p num_subs k)

-- `result_parser`, from the statistics of the publisher and of the subscribers.
unfoldable pub result_parser :
    Option (List String) → Option (List String) → Stats → List Stats → Result Report
unfolding tally result_of
result_parser slow rec p stats =
    result_of p (length stats) (tally slow rec p.msg_cnt no_clients stats)

-- `boundary_resultfn`, for the rate that was asked for.
unfoldable pub boundary_resultfn : ℕ → Report → Bool × ℕ × Fraction
boundary_resultfn msg_rate res =
    (not (ltb (10 * res.average_tx_rate) (7 * msg_rate)), res.average_rate, res.average_packet_loss)
