-- ===== src/Suites/Flaky.antt =====
-- What a round of the ZeroMQ suite leaves for the next one.
use m_scale.Common.{ℕ, ◌≡◌, arith, Bool, true, none, some, Option, ok, inl, inr, Result-cases}
use m_scale.Zmq.RunTest.{Options}
use m_scale.Suites.{Harness, prepare}
use m_scale.Suites.MaxRate.{
  SuiteOptions, round_options, slow_options, rec_options, search_below, find_rates, flaky_searches,
  flaky_round, zmq_round,
}

-- The options at which clients reconnect, in a suite with flaky clients.
abbrev pub Reconnects : SuiteOptions → Type 0
Reconnects o = (o.options.rec_clients_percent ≡ 10) × (o.flaky_clients ≡ true)

module _ {S : Type 0} (h : Harness Options S) (unit fuel : ℕ) where
  flaky_searches-Reconnects :
      (rates : ℕ × ℕ) (o o' : SuiteOptions) (s s' : S)
      → o.flaky_clients ≡ true
      → flaky_searches h unit fuel rates o s ≡ (ok (some o'), s')
      → Reconnects o'
  unfolding flaky_searches slow_options rec_options
  flaky_searches-Reconnects (rate, nodrop) o o' s s' flaky e =
      let slow = slow_options unit nodrop o in
      let (r1, s1) = h.set_options slow.options s in
      let (f, s2) = search_below h unit fuel rate s1 in
      let rec = rec_options unit nodrop slow in
      let (r2, s3) = h.set_options rec.options s2 in
      let (g, s4) = search_below h unit fuel rate s3 in ground (arith, flaky, e)

  flaky_round-Reconnects :
      (rates : Option (ℕ × ℕ)) (o o' : SuiteOptions) (s s' : S)
      → o.flaky_clients ≡ true
      → flaky_round h unit fuel rates o s ≡ (ok (some o'), s')
      → Reconnects o'
  unfolding flaky_round
  flaky_round-Reconnects none o o' s s' flaky e = absurd (ground (arith, e))
  flaky_round-Reconnects (some rates) o o' s s' flaky e =
      flaky_searches-Reconnects rates o o' s s' flaky (ground (arith, flaky, e))

  -- In a suite with flaky clients a round that comes to its end leaves the share of reconnecting
  -- clients at ten percent, and the options that the next round sets keep it, whatever its number of
  -- clients: its search for the highest rate is made with these clients.
  pub zmq_round-Reconnects :
      (first : Bool) (client_count next_count : ℕ) (o o' : SuiteOptions) (s s' : S)
      → o.flaky_clients ≡ true
      → zmq_round h unit fuel first client_count o s ≡ (ok (some o'), s')
      → Reconnects (round_options next_count o')
  unfolding zmq_round round_options
  zmq_round-Reconnects first client_count next_count o o' s s' flaky e =
      let start = round_options client_count o in
      elim (Result-cases (prepare h first start.options s).0) [
        | inr (x, p) ↦ absurd (ground (arith, p, e))
        | inl (u, p) ↦
            let s1 = (prepare h first start.options s).1 in
            elim (Result-cases (find_rates h unit fuel client_count s1).0) [
              | inr (x, q) ↦ absurd (ground (arith, p, q, e))
              | inl (rates, q) ↦
                  flaky_round-Reconnects rates start o' (find_rates h unit fuel client_count s1).1
                    s' flaky (ground (arith, p, q, e))
            ]
      ]
