-- ===== src/Publisher/Stages.antt =====
-- The publisher between and within requests: which pieces of the main loop come between the assignments
-- of the handlers, and what the handlers change between the pieces of the loop.
use m_scale.Common.{ℕ, ◌*◌, ◌/◌, ◌≡◌, ◌≢◌, Bool, true, false, some, ◌<◌}
use m_scale.Publisher.{
  second, Outside, Phase, Publisher, System, waiting, sending, closing, rating, counting, measuring,
  reporting, closed, crashed, running, stopping, new_publisher, Command, test_start, get_stats,
  test_status, update_config, handle, tick, raise_flag, mark_running, renew_stats,
}
use m_scale.Publisher.Starting.{at_phase}

-- Where the thread of the daemon is: between two requests, or in `test_start`, behind its first or its
-- second assignment.
pub data Stage : Type 0 where
  idle flagged marked : Stage

-- The main loop has not left the inner loop, or is done with the last test.
abbrev pub is_before_end : Phase → Bool
is_before_end waiting = true
is_before_end (sending cnt n t) = true
is_before_end (closing n e) = false
is_before_end (rating n e) = false
is_before_end (counting n) = false
is_before_end measuring = false
is_before_end reporting = false
is_before_end closed = true
is_before_end (crashed e) = true

abbrev pub is_start : Command → Bool
is_start test_start = true
is_start get_stats = false
is_start test_status = false
is_start (update_config d b r) = false

module _ {W : Type 0} (o : Outside W) where
  abbrev pub with_publisher : System W → Publisher → System W
  with_publisher s p = record s { publisher = p }

  -- The states that a publisher comes to under a master that does not start a test while the status is
  -- `running`, and with tests that last longer than the three assignments of `test_start`: the loop may
  -- go on between these, but not past the end of the test. A round of the inner loop is one piece.
  pub data Reachable : Stage → System W → Type 0 where
    made : (d b r : ℕ) (w : W) → Reachable idle (at_phase o waiting (new_publisher d b r) w)
    loops : (s : System W) → Reachable idle s → Reachable idle (tick o s)
    loops_meanwhile :
        (g : Stage) (s : System W)
        → Reachable g s
        → is_before_end (tick o s).phase ≡ true
        → Reachable g (tick o s)
    asks :
        (c : Command) (s : System W)
        → is_start c ≡ false
        → Reachable idle s
        → Reachable idle (handle o c s).1
    flags :
        (s : System W)
        → s.publisher.test_status ≢ running
        → Reachable idle s
        → Reachable flagged (with_publisher s (raise_flag o s.publisher))
    marks :
        (s : System W)
        → Reachable flagged s
        → Reachable marked (with_publisher s (mark_running o s.publisher))
    renews :
        (s : System W)
        → Reachable marked s
        → Reachable idle (
            at_phase o s.phase
              (renew_stats o s.publisher s.world).0
              (renew_stats o s.publisher s.world).1)

  abbrev pub HasRate : ℕ → Publisher → Type 0
  HasRate n p = (e : ℕ) × (0 < e) × (p.stats.rate ≡ some (n * second / e))

  abbrev pub HasResult : Publisher → Type 0
  HasResult p = (n : ℕ) × (p.stats.msg_cnt ≡ some n) × HasRate n p

  -- What holds of the publisher at each phase, between requests.
  abbrev pub AtPhase : Phase → Publisher → Type 0
  AtPhase waiting p = p.start ≡ true → p.test_status ≡ running
  AtPhase (sending cnt n t) p = p.test_status ≡ running
  AtPhase (closing n e) p = p.test_status ≡ running
  AtPhase (rating n e) p = p.test_status ≡ running
  AtPhase (counting n) p = (p.test_status ≡ running) × HasRate n p
  AtPhase measuring p = (p.test_status ≡ running) × HasResult p
  AtPhase reporting p = (p.test_status ≡ running) × HasResult p
  AtPhase closed p = Unit {0}
  AtPhase (crashed e) p = Unit {0}

  abbrev pub AtStage : Stage → Phase → Publisher → Type 0
  AtStage idle ph p = AtPhase ph p
  AtStage flagged ph p = is_before_end ph ≡ true
  AtStage marked ph p = (is_before_end ph ≡ true) × (p.test_status ≡ running)

  abbrev pub Fine : Stage → System W → Type 0
  Fine g s =
      AtStage g s.phase s.publisher × (s.publisher.test_status ≡ stopping → HasResult s.publisher)
