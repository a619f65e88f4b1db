-- ===== src/Publisher/Pacing.antt =====
-- What a round of the publishers' inner loop does to the counters, the clock and the socket.
use m_scale.Common.{
  ℕ, ◌+◌, ◌-◌, ◌*◌, ◌/◌, ◌≤◌, ◌<◌, ◌≡◌, arith, ◌⊎◌, inl, inr, String, List, [], ◌∷◌, ◌++◌, ok, ltb,
  nat_eq, Bool-cases, refl, true, ◌∙◌, false,
}
use m_scale.Publisher.{
  second, Publisher, Outside, delay_for, pace, Phase, send_round, closing, message, sending,
}

within : (a st d : ℕ) → ltb (a - st) d ≡ true → a < st + d
within a st d e = ground (arith, e)

beyond : (e d : ℕ) → ltb e d ≡ false → d ≤ e
beyond e d h = ground (arith, h)

module _ {W : Type 0} (o : Outside W) (clock : W → ℕ) (sent : W → List String) where
  -- The clock, that `clock` reads of the state, does not go back, a sleep lasts as long as it is
  -- asked to, and only `send` sends: the socket accepts each message.
  pub record IsOrderly : Type 0 where
    pub time_is :
        (w : W)
        → ((o.time w).0 ≡ clock (o.time w).1)
          × (clock w ≤ clock (o.time w).1)
          × (sent (o.time w).1 ≡ sent w)
    pub sleep_is :
        (d : ℕ) (w : W) → (clock w + d ≤ clock (o.sleep d w)) × (sent (o.sleep d w) ≡ sent w)
    pub read_is : (w : W) → (clock w ≤ clock (o.read w).1) × (sent (o.read w).1 ≡ sent w)
    pub send_is :
        (m : String) (w : W)
        → ((o.send m w).0 ≡ ok tt)
          × (sent (o.send m w).1 ≡ sent w ++ m ∷ [])
          × (clock w ≤ clock (o.send m w).1)

  slept :
      IsOrderly
      → (e st : ℕ) (w : W) → st ≤ clock w
      → (clock w + second ≤ clock (o.sleep (delay_for e (clock w - st)) w))
        ⊎ (e ≤ clock (o.sleep (delay_for e (clock w - st)) w) - st)
  unfolding delay_for
  slept k e st w le =
      let d = delay_for e (clock w - st) in
      let late = k.sleep_is d w in
      elim (Bool-cases (ltb second (e - (clock w - st)))) [
        | inl long ↦ inl (ground (arith, long, late, le))
        | inr short ↦ inr (ground (arith, short, late, le))
      ]

  -- After a batch a second has passed, or the time in which the messages were to be sent.
  abbrev pub Paced : Publisher → ℕ → ℕ → ℕ → W → ℕ → W → Type 0
  Paced p cnt n st w c w' =
      ((c ≡ cnt) × (cnt < p.msg_batch))
      ⊎ ((c ≡ 0)
          × (p.msg_batch ≤ cnt)
          × ((clock w + second ≤ clock w') ⊎ (n * second / p.msg_requested_rate ≤ clock w' - st)))

  pub pace_lem :
      IsOrderly
      → (p : Publisher) (cnt n st : ℕ) (w : W) → 0 < p.msg_requested_rate
      → st ≤ clock w
      → (c : ℕ) × (w' : W) × (pace o p cnt n st w ≡ (ok c, w'))
        × (sent w' ≡ sent w)
        × (clock w ≤ clock w')
        × Paced p cnt n st w c w'
  unfolding pace
  pace_lem k p cnt n st w r le =
      let w1 = (o.time w).1 in
      let e = n * second / p.msg_requested_rate in
      let d = delay_for e (clock w1 - st) in
      let w2 = o.sleep d w1 in
      elim (Bool-cases (ltb cnt p.msg_batch)) [
        | inl more ↦
            (cnt, w, ground (arith, more), refl, ground arith, inl (refl, ground (arith, more)))
        | inr full ↦ (
          0,
          w2,
          ground (arith, full, k.time_is w),
          ground (arith, k.time_is w, k.sleep_is d w1),
          ground (arith, k.time_is w, k.sleep_is d w1),
          inr (
            refl,
            ground (arith, full),
            ground (arith, k.time_is w, slept k e st w1 (ground (arith, k.time_is w))),
          ),
        )
      ]

  Paced-wider :
      (p : Publisher) (cnt n st : ℕ) (v w : W) (c : ℕ) (w' v' : W)
      → Paced p cnt n st w c w'
      → clock v ≤ clock w
      → clock w' ≤ clock v'
      → Paced p cnt n st v c v'
  Paced-wider p cnt n st v w c w' v' (inl x) le le' = inl x
  Paced-wider p cnt n st v w c w' v' (inr (a, b, inl x)) le le' =
      inr (a, b, inl (ground (arith, x, le, le')))
  Paced-wider p cnt n st v w c w' v' (inr (a, b, inr x)) le le' =
      inr (a, b, inr (ground (arith, x, le, le')))

  -- A round sends one message. It is the last one if the test has lasted long enough.
  abbrev pub Rounded : Publisher → ℕ → ℕ → ℕ → W → Phase → W → Type 0
  Rounded p cnt n st w ph w' =
      ((e : ℕ) × (ph ≡ closing (n + 1) e) × (p.test_duration ≤ e))
      ⊎ ((c : ℕ) × (ph ≡ sending c (n + 1) st)
          × (clock w' < st + p.test_duration)
          × Paced p (cnt + 1) (n + 1) st w c w')

  pub send_round_lem :
      IsOrderly
      → (p : Publisher) (cnt n st : ℕ) (w : W) → 0 < p.msg_requested_rate
      → st ≤ clock w
      → (ph : Phase) × (w' : W) × (send_round o p cnt n st w ≡ (ok ph, w'))
        × (sent w' ≡ sent w ++ message n ∷ [])
        × (st ≤ clock w')
        × (clock w ≤ clock w')
        × Rounded p cnt n st w ph w'
  unfolding send_round
  send_round_lem k p cnt n st w r le =
      let w1 = (o.send (message n) w).1 in
      let first = k.send_is (message n) w in
      let (c, w2, e2, s2, c2, pc) =
        pace_lem k p (cnt + 1) (n + 1) st w1 r (ground (arith, first, le)) in
      let w3 = (o.time w2).1 in
      let last = k.time_is w2 in
      let s3 = last.2 ∙ s2 ∙ first.1 in
      let c3 : clock w ≤ clock w3 = omega (arith, first.2, c2, last.1) in
      elim (Bool-cases (ltb (clock w3 - st) p.test_duration)) [
        | inl on ↦ (
          sending c (n + 1) st,
          w3,
          ground (arith, first, e2, last, on),
          s3,
          omega (arith, le, c3),
          c3,
          inr (
            c,
            refl,
            within (clock w3) st p.test_duration on,
            Paced-wider p (cnt + 1) (n + 1) st w w1 c w2 w3 pc first.2 last.1,
          ),
        )
        | inr over ↦ (
          closing (n + 1) (clock w3 - st),
          w3,
          ground (arith, first, e2, last, over),
          s3,
          omega (arith, le, c3),
          c3,
          inl (clock w3 - st, refl, beyond (clock w3 - st) p.test_duration over),
        )
      ]
