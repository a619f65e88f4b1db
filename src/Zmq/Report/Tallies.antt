-- ===== src/Zmq/Report/Tallies.antt =====
-- `result_parser` against a description by the list of the clients that it does not set aside.
use m_scale.Common.{
  ℕ, ◌+◌, ◌/◌, ◌≡◌, arith, ◌||◌, Option, none, some, String, List, [], ◌∷◌, ok, err, zero_division,
  length, string_eq, nat_eq, ◌==◌, ltb, if◌then◌else◌,
}
use m_scale.Hydra.{Stats}
use m_scale.Zmq.Report.{
  Tally, Report, no_clients, is_among, tally_client, tally, result_of, result_parser, report,
  packet_loss, or_none, sent, received, scaled,
}

abbrev pub sum_of : (Stats → ℕ) → List Stats → ℕ
sum_of f [] = 0
sum_of f (s ∷ stats) = f s + sum_of f stats

-- The clients that did not receive as many packets as were sent.
abbrev pub failing : ℕ → List Stats → List Stats
failing tx [] = []
failing tx (s ∷ stats) = if s.msg_cnt == tx then failing tx stats else s ∷ failing tx stats

-- The clients that are neither slow, nor reconnecting, nor without any packet.
abbrev pub ordinary : Option (List String) → Option (List String) → List Stats → List Stats
ordinary slow rec [] = []
ordinary slow rec (s ∷ stats) =
    let rest = ordinary slow rec stats in
    if is_among slow s.task_id || (s.msg_cnt == 0) || is_among rec s.task_id then rest else s ∷ rest

abbrev pub msg_cnt_of : Stats → ℕ
msg_cnt_of s = s.msg_cnt

abbrev pub rate_of : Stats → ℕ
rate_of s = s.rate

-- The result, from the ordinary clients.
abbrev pub described : Stats → ℕ → List Stats → Report
described p num_subs o = record {
  client_count = num_subs;
  packet_tx = p.msg_cnt;
  average_packets = sum_of msg_cnt_of o / length o;
  average_rate = sum_of rate_of o / length o;
  failing_clients = length (failing p.msg_cnt o);
  failing_clients_rate =
      (if ltb 0 (length (failing p.msg_cnt o))
        then some (sum_of rate_of (failing p.msg_cnt o) / length (failing p.msg_cnt o))
        else none);
  average_tx_rate = p.rate;
  valid_client_cnt = some (length o);
  average_packet_loss = packet_loss p.msg_cnt (sum_of msg_cnt_of o) (length o);
  pub_cpu = record { top = scaled 100 (or_none p.cpu); bottom = p.time };
  pub_net_txrate = record { top = sent p.net; bottom = p.time };
  pub_net_rxrate = record { top = received p.net; bottom = p.time };
}

module _ (slow rec : Option (List String)) (tx : ℕ) where
  -- What the loop adds to the counters.
  record Adds (k k' : Tally) (o : List Stats) : Type 0 where
    valid : k'.valid_client_cnt ≡ k.valid_client_cnt + length o
    packets : k'.clients_packet_count ≡ k.clients_packet_count + sum_of msg_cnt_of o
    rates : k'.client_rate ≡ k.client_rate + sum_of rate_of o
    bad : k'.bad_clients ≡ k.bad_clients + length (failing tx o)
    bad_rates : k'.bad_client_rate ≡ k.bad_client_rate + sum_of rate_of (failing tx o)

  tally-Adds :
      (k : Tally) (stats : List Stats)
      → Adds k (tally slow rec tx k stats) (ordinary slow rec stats)
  unfolding tally tally_client
  tally-Adds k [] = ground arith
  tally-Adds k (s ∷ stats) = ground (arith, tally-Adds (tally_client slow rec tx k s) stats)

-- `result_parser` raises ZeroDivisionError if no client is ordinary (neither slow, nor
-- reconnecting, nor without any packet), if the publisher sent nothing or if the test took no time;
-- else its result is the one that the ordinary clients describe: their number, their averages,
-- those of them that failed and the loss.
pub result_parser-described :
    (slow rec : Option (List String)) (p : Stats) (stats : List Stats)
    → result_parser slow rec p stats ≡ (
        if (length (ordinary slow rec stats) == 0)
          || (p.msg_cnt == 0)
          || (p.time.plus == p.time.minus)
        then err zero_division
        else ok (described p (length stats) (ordinary slow rec stats)))
unfolding result_parser result_of report
result_parser-described slow rec p stats =
    ground (arith, tally-Adds slow rec p.msg_cnt no_clients stats)
