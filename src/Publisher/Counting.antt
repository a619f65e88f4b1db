-- ===== src/Publisher/Counting.antt =====
-- A test of a publisher: it ends, and its count is the number of messages that it has sent.
use m_scale.Common.{
  ℕ, zero, suc, ◌+◌, ◌-◌, ◌*◌, ◌/◌, ◌≤◌, ◌<◌, ◌≡◌, refl, arith, inl, inr, String, List, ◌++◌, ok,
  ◌∙◌, ap, true, false, some,
}
use m_scale.Publisher.{
  second, Publisher, Outside, Phase, System, sending, closing, waiting, stopping, message,
  send_round, tick, ticks, Reading, write_time_end, write_rate, write_count, write_end,
  write_status,
}
use m_scale.Publisher.Pacing.{IsOrderly, Paced, send_round_lem}
use m_scale.Publisher.Budget.{
  numbered, budget, drops_in_batch, drops_by_time, drops_by_message, not_due, one_later, suc_plus,
  seven_on, zero_plus, budget_start, continued,
}

module _ {W : Type 0} (o : Outside W) where
  abbrev pub at_phase : Phase → Publisher → W → System W
  at_phase ph p w = record { phase = ph; publisher = p; world = w }

  ticks_add : (n k : ℕ) (s : System W) → ticks o (n + k) s ≡ ticks o k (ticks o n s)
  unfolding ticks
  ticks_add zero k s = ground arith
  ticks_add (suc n) k s = ap (λ i. ticks o i s) (suc_plus n k) ∙ ticks_add n k (tick o s)

  tick-sending :
      (p : Publisher) (cnt n st : ℕ) (w : W) (ph : Phase) (w' : W)
      → send_round o p cnt n st w ≡ (ok ph, w')
      → tick o (at_phase (sending cnt n st) p w) ≡ at_phase ph p w'
  unfolding tick
  tick-sending p cnt n st w ph w' e = ground (arith, e)

  module _ (clock : W → ℕ) (sent : W → List String) (k : IsOrderly o clock sent) where
    abbrev Ends : ℕ → Publisher → ℕ → ℕ → ℕ → W → Type 0
    Ends fuel p cnt n st w =
        (m : ℕ) × (e : ℕ) × (w' : W) × (m ≤ fuel)
        × (0 < m)
        × (p.test_duration ≤ e)
        × (ticks o m (at_phase (sending cnt n st) p w) ≡ at_phase (closing (n + m) e) p w')
        × (sent w' ≡ sent w ++ numbered n m)

    -- The budget goes down with each round.
    Paced-budget :
        (p : Publisher) (cnt n st : ℕ) (w : W) (c : ℕ) (w' : W)
        → 0 < p.msg_requested_rate
        → cnt < p.msg_batch
        → st ≤ clock w'
        → clock w ≤ clock w'
        → clock w' < st + p.test_duration
        → Paced o clock sent p (cnt + 1) (n + 1) st w c w'
        → (c < p.msg_batch)
          × (budget p.msg_batch
                (p.test_duration * p.msg_requested_rate - (n + 1))
                c
                (st + p.test_duration - clock w')
              < budget p.msg_batch
                  (p.test_duration * p.msg_requested_rate - n)
                  cnt
                  (st + p.test_duration - clock w))
    Paced-budget p cnt n st w c w' r l le m u (inl (same, more)) = (
      omega (arith, same, more),
      omega (
        arith,
        same,
        drops_in_batch p.msg_batch (p.test_duration * p.msg_requested_rate - n) cnt
            (st + p.test_duration - clock w) (p.test_duration * p.msg_requested_rate - (n + 1))
            (st + p.test_duration - clock w') (omega (arith, more)) (omega arith)
            (omega (arith, m)),
      ),
    )
    Paced-budget p cnt n st w c w' r l le m u (inr (reset, full, inl second_on)) = (
      omega (arith, reset, l),
      omega (
        arith,
        reset,
        drops_by_time p.msg_batch (p.test_duration * p.msg_requested_rate - n) cnt
            (st + p.test_duration - clock w) (p.test_duration * p.msg_requested_rate - (n + 1))
            (st + p.test_duration - clock w') l (omega arith) (omega (arith, second_on, u)),
      ),
    )
    Paced-budget p cnt n st w c w' r l le m u (inr (reset, full, inr due)) =
        let early =
          not_due (n + 1) p.msg_requested_rate p.test_duration (clock w' - st) r due
            (omega (arith, le, u)) in
        (
          omega (arith, reset, l),
          omega (
            arith,
            reset,
            drops_by_message p.msg_batch (p.test_duration * p.msg_requested_rate - n) cnt
                (st + p.test_duration - clock w) (p.test_duration * p.msg_requested_rate - (n + 1))
                (st + p.test_duration - clock w') l (omega (arith, early)) (omega (arith, m)),
          ),
        )

    ticks-Ends :
        (fuel : ℕ) (p : Publisher) (cnt n st : ℕ) (w : W)
        → 0 < p.msg_requested_rate
        → cnt < p.msg_batch
        → st ≤ clock w
        → budget p.msg_batch
            (p.test_duration * p.msg_requested_rate - n)
            cnt
            (st + p.test_duration - clock w)
          < fuel
        → Ends fuel p cnt n st w
    unfolding ticks
    ticks-Ends zero p cnt n st w r l le f = absurd (omega (arith, f))
    ticks-Ends (suc fuel) p cnt n st w r l le f =
        let (ph, w', run, log, le', m, after) = send_round_lem o clock sent k p cnt n st w r le in
        elim after [
          | inl (e, done, long) ↦ (
            1,
            e,
            w',
            omega arith,
            omega arith,
            long,
            tick-sending p cnt n st w ph w' run ∙ ap (λ q. at_phase q p w') done,
            log,
          )
          | inr (c, on, early, paced) ↦
              let (l', drop) = Paced-budget p cnt n st w c w' r l le' m early paced in
              let (j, e, w'', bound, some_sent, long, rest, log') =
                ticks-Ends fuel p c (n + 1) st w' r l' le' (omega (arith, drop, f)) in
              (
                suc j,
                e,
                w'',
                omega (arith, bound),
                omega arith,
                long,
                ap (ticks o j) (tick-sending p cnt n st w ph w' run ∙ ap (λ q. at_phase q p w') on)
                    ∙ rest
                    ∙ ap (λ i. at_phase (closing i e) p w'') (one_later n j),
                continued (sent w) (message n) (sent w') (sent w'') (n + 1) (suc n) j log log'
                    (omega arith),
              )
        ]

    abbrev finished : Publisher → ℕ → ℕ → ℕ → Reading → Publisher
    finished p n e t reading = record p {
      start = false;
      test_status = stopping;
      stats = record p.stats {
        time_end = some t;
        rate = some (n * second / e);
        msg_cnt = some n;
        end = some reading;
      };
    }

    finish :
        (p : Publisher) (n e : ℕ) (w : W)
        → 0 < e
        → (t : ℕ) × (reading : Reading) × (w' : W) × (ticks o 6 (at_phase (closing n e) p w)
            ≡ at_phase waiting (finished p n e t reading) w')
          × (sent w' ≡ sent w)
    unfolding ticks tick write_time_end write_rate write_count write_end write_status
    finish p n e w pos =
        let w1 = (o.time w).1 in
        (
          (o.time w).0,
          (o.read w1).0,
          (o.read w1).1,
          ground (arith, pos),
          (k.read_is w1).1 ∙ (k.time_is w).2,
        )

    signal :
        (p : Publisher) (w : W)
        → p.start ≡ true
        → tick o (at_phase waiting p w) ≡ at_phase (sending 0 0 (o.time w).0) p (o.time w).1
    unfolding tick
    signal p w on = rw on refl

    -- A test ends by itself where the rate is not 0, a batch at least one message and the duration
    -- at least a microsecond, even where sending takes no time, since the loop sleeps after each
    -- batch: it has sent the messages 0, 1, …, without a gap, at least one and at most as many as
    -- the budget says; the count that it leaves is theirs, the rate is that of the count over the
    -- time, which is no less than the duration, and it waits for the next test with the status
    -- `stopping`.
    pub test_counts :
        (p : Publisher) (w : W)
        → p.start ≡ true
        → 0 < p.msg_requested_rate
        → 0 < p.msg_batch
        → 0 < p.test_duration
        → (n : ℕ) × (e : ℕ) × (u : System W) × (n
            ≤ budget p.msg_batch (p.test_duration * p.msg_requested_rate) 0 p.test_duration + 1)
          × (0 < n)
          × (p.test_duration ≤ e)
          × (ticks o (n + 7) (at_phase waiting p w) ≡ u)
          × (u.phase ≡ waiting)
          × (u.publisher.start ≡ false)
          × (u.publisher.test_status ≡ stopping)
          × (u.publisher.stats.msg_cnt ≡ some n)
          × (u.publisher.stats.rate ≡ some (n * second / e))
          × (sent u.world ≡ sent w ++ numbered 0 n)
    unfolding ticks
    test_counts p w on r b d =
        let w1 = (o.time w).1 in
        let st = (o.time w).0 in
        let c = k.time_is w in
        let due = p.test_duration * p.msg_requested_rate in
        let (n, e, w2, bound, some_sent, long, run, log) =
          ticks-Ends (budget p.msg_batch due 0 p.test_duration + 1) p 0 0 st w1 r b
            (omega (arith, c.0)) (budget_start p.msg_batch due p.test_duration st (clock w1) c.0) in
        let (t, reading, w3, over, quiet) = finish p n e w2 (omega (arith, d, long)) in
        (
          n,
          e,
          at_phase waiting (finished p n e t reading) w3,
          bound,
          some_sent,
          long,
          ap (λ i. ticks o i (at_phase waiting p w)) (seven_on n)
              ∙ ap (ticks o (n + 6)) (signal p w on)
              ∙ ticks_add n 6 (at_phase (sending 0 0 st) p w1)
              ∙ ap (ticks o 6) (run ∙ ap (λ i. at_phase (closing i e) p w2) (zero_plus n))
              ∙ over,
          refl,
          refl,
          refl,
          refl,
          refl,
          quiet ∙ log ∙ ap (λ s. s ++ numbered 0 n) c.2,
        )
