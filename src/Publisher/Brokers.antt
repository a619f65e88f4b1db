-- ===== src/Publisher/Brokers.antt =====
-- The publishers of rmqtest/rmq_pub.py and kafkatest/kafka_pub.py: the loop of zmq_pub.py with
-- another call that sends. The one for Kafka logs a KafkaTimeoutError of that call and goes on.
use m_scale.Common.{
  ◌>>=◌, ℕ, ◌≡◌, arith, none, some, String, List, get_elem?, Exec, Result, ok, err, Error, raised,
  index_error, if◌then◌else◌, string_eq, ◌==◌, Option, value_error, ltb, length, ◌<◌, ◌∷◌, [], refl,
  pure, raise,
}
use m_scale.Publisher.{Outside, System, Command, Reply, handle, tick, ticks}

abbrev pub kafka_timeout : Error
kafka_timeout = raised "KafkaTimeoutError"

-- The `except` clause.
abbrev pub caught : Result (Unit {0}) → Result (Unit {0})
caught (ok u) = ok u
caught (err (raised s)) = if s == "KafkaTimeoutError" then ok tt else err (raised s)
caught (err e) = err e

module _ {W : Type 0} (o : Outside W) where
  -- `channel.basic_publish(exchange='pub', routing_key='', body=message)` in place of the socket.
  unfoldable pub rmq_tick : (String → Exec W (Unit {0})) → System W → System W
  rmq_tick basic_publish = tick (record o { send = basic_publish })

  unfoldable pub rmq_handle : Command → System W → Reply × System W
  rmq_handle c s = handle o c s

  -- `producer.produce(message)` in its `try`.
  unfoldable pub kafka_send : (String → Exec W (Unit {0})) → String → Exec W (Unit {0})
  kafka_send produce message w = let (r, w') = produce message w in (caught r, w')

  unfoldable pub kafka_ticks : (String → Exec W (Unit {0})) → ℕ → System W → System W
  unfolding kafka_send
  kafka_ticks produce n s = ticks (record o { send = kafka_send produce }) n s

  unfoldable pub kafka_handle : Command → System W → Reply × System W
  kafka_handle c s = handle o c s

-- What `run` of kafka_pub.py reads of `argv`; `int` and `float` are None where they raise ValueError.
pub record PubArgs : Type 0 where
  pub test_duration : ℕ
  pub msg_batch : ℕ
  pub msg_requested_rate : ℕ
  pub topic_name : String
  pub acks : ℕ
  pub linger_ms : ℕ

abbrev pub argument : List String → ℕ → Result String
argument argv i = elim (get_elem? argv i) [ none ↦ err index_error | some s ↦ ok s ]

abbrev pub number : (String → Option ℕ) → String → Exec (Unit {0}) ℕ
number read s u = elim (read s) [ none ↦ (err value_error, u) | some n ↦ (ok n, u) ]

module _ (int float : String → Option ℕ) where
  unfoldable pub read_args : List String → Exec (Unit {0}) PubArgs
  read_args argv =
      if ltb 4 (length argv)
      then (do
        test_duration ← λ u. (argument argv 1, u)
        msg_batch ← λ u. (argument argv 2, u)
        msg_requested_rate ← λ u. (argument argv 3, u)
        topic_name ← λ u. (argument argv 4, u)
        acks ← λ u. (argument argv 5, u)
        linger_ms ← λ u. (argument argv 6, u)
        batch ← number int msg_batch
        rate ← number float msg_requested_rate
        duration ← number float test_duration
        a ← number int acks
        linger ← number int linger_ms
        pure (record {
          test_duration = duration;
          msg_batch = batch;
          msg_requested_rate = rate;
          topic_name = topic_name;
          acks = a;
          linger_ms = linger;
        }))
      else raise (raised "UnboundLocalError")

  -- `run` of kafka_pub.py with fewer than six arguments raises: with four or five of them, which it
  -- takes for enough, an IndexError.
  pub read_args-short :
      (argv : List String)
      → length argv < 7
      → (read_args argv tt).0
        ≡ err (if ltb 4 (length argv) then index_error else raised "UnboundLocalError")
  unfolding read_args
  read_args-short [] l = refl
  read_args-short (a ∷ []) l = refl
  read_args-short (a ∷ b ∷ []) l = refl
  read_args-short (a ∷ b ∷ c ∷ []) l = refl
  read_args-short (a ∷ b ∷ c ∷ d ∷ []) l = refl
  read_args-short (a ∷ b ∷ c ∷ d ∷ e ∷ []) l = refl
  read_args-short (a ∷ b ∷ c ∷ d ∷ e ∷ f ∷ []) l = refl
  read_args-short (a ∷ b ∷ c ∷ d ∷ e ∷ f ∷ g ∷ argv) l = absurd (omega (arith, l))
