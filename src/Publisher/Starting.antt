-- ===== src/Publisher/Starting.antt =====
-- A start of a test that is lost between two pieces of the main loop.
use m_scale.Common.{zero, suc, ◌≡◌, true, false, nat_eq, arith, ℕ, ◌<◌, refl}
use m_scale.Publisher.{
  Outside, Phase, Publisher, System, closed, closing, handle, running, start_test, status, stopping,
  test_start, test_status, tick, ticks, waiting, second, write_time_end, write_rate, write_count,
  write_end, write_status, raise_flag, mark_running, renew_stats,
}

module _ {W : Type 0} (o : Outside W) where
  abbrev pub at_phase : Phase → Publisher → W → System W
  at_phase ph p w = record { phase = ph; publisher = p; world = w }

  still_waiting :
      (m : ℕ) (s : System W)
      → s.phase ≡ waiting
      → s.publisher.start ≡ false
      → ((ticks o m s).phase ≡ waiting) × ((ticks o m s).publisher ≡ s.publisher)
  unfolding ticks tick
  still_waiting zero s a b = (a, refl)
  still_waiting (suc m) s a b =
      ground (arith, a, b, still_waiting m (record s { world = o.sleep second s.world }) a b)

  reported :
      (p : Publisher) (n e : ℕ) (w : W)
      → 0 < e
      → let u = ticks o 5 (at_phase (closing n e) p w) in
        let v = (handle o test_start u).1 in
        (u.publisher.test_status ≡ stopping)
        × (v.phase ≡ closed)
        × (v.publisher.start ≡ true)
        × (v.publisher.test_status ≡ running)
  unfolding ticks tick handle start_test write_time_end write_rate write_count write_end
      write_status raise_flag mark_running renew_stats
  reported p n e w pos = ground (arith, pos)

  taken_back :
      (v : System W)
      → v.phase ≡ closed
      → ((tick o v).phase ≡ waiting) × ((tick o v).publisher ≡ record v.publisher { start = false })
  unfolding tick
  taken_back v e = ground (arith, e)

  -- A start of the next test that comes after the loop has written the result of a test, with the status
  -- `stopping`, and before it takes `start` back is lost: from then on the loop waits, whatever time
  -- passes, and the status stays `running`, so that the master waits without end. The time that the
  -- test took is not 0.
  pub start_is_lost :
      (p : Publisher) (n e : ℕ) (w : W) (m : ℕ) (u v z : System W)
      → 0 < e
      → ticks o 5 (at_phase (closing n e) p w) ≡ u
      → (handle o test_start u).1 ≡ v
      → ticks o (suc m) v ≡ z
      → ((handle o test_status u).0 ≡ status stopping)
        × (v.publisher.start ≡ true)
        × (z.phase ≡ waiting)
        × (z.publisher.start ≡ false)
        × ((handle o test_status z).0 ≡ status running)
  unfolding ticks handle
  start_is_lost p n e w m u v z pos a b c =
      let (over, at_end, on, run) = reported p n e w pos in
      ground (arith, over, at_end, on, run, taken_back v, still_waiting m (tick o v))
