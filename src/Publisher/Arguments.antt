-- ===== src/Publisher/Arguments.antt =====
-- The arguments of the `run` of zmq_pub.py and rmq_pub.py. `int` and `float` are Python's, None where
-- they raise.
use m_scale.Common.{ℕ, Option, none, some, String, List, ◌∷◌, Result, ok, err, raised, value_error}

-- The metrics of the publisher: duration, batch and rate.
pub record Metrics : Type 0 where
  pub test_duration : ℕ
  pub msg_batch : ℕ
  pub msg_requested_rate : ℕ

module _ (int float : String → Option ℕ) where
  -- The numbers, in the order in which they are read.
  unfoldable pub read_metrics : String → String → String → Result Metrics
  read_metrics test_duration msg_batch msg_requested_rate = elim (int msg_batch) [
    | none ↦ err value_error
    | some batch ↦ elim (float msg_requested_rate) [
      | none ↦ err value_error
      | some rate ↦ elim (float test_duration) [
        | none ↦ err value_error
        | some duration ↦
            ok (record { test_duration = duration; msg_batch = batch; msg_requested_rate = rate })
      ]
    ]
  ]

  -- With fewer than three arguments the names are not bound.
  unfoldable pub zmq_pub_metrics : List String → Result Metrics
  unfolding read_metrics
  zmq_pub_metrics (a ∷ test_duration ∷ msg_batch ∷ msg_requested_rate ∷ argv) =
      read_metrics test_duration msg_batch msg_requested_rate
  zmq_pub_metrics argv = err (raised "UnboundLocalError")

  unfoldable pub rmq_pub_metrics : List String → Result Metrics
  unfolding read_metrics
  rmq_pub_metrics (a ∷ test_duration ∷ msg_batch ∷ msg_requested_rate ∷ argv) =
      read_metrics test_duration msg_batch msg_requested_rate
  rmq_pub_metrics argv = err (raised "UnboundLocalError")
