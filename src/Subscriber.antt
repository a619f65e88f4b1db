-- ===== src/Subscriber.antt =====
-- The subscribers: zmqtest/zmq_sub.py, kafkatest/kafka_sub.py and rmqtest/rmq_sub.py. Times are
-- microseconds, which `time.time()` gives, `recv_rate` is in messages per second and `reconnect_rate` in thousandths of a
-- reconnect per second. The sockets are not modelled: what they receive is a list of messages.
-- `int` is Python's, None where it raises.
pub mod Receiving
pub mod Rabbit
pub mod Arguments
use Prim.Native.Char.{code}
use m_scale.Common.{
  ℕ, zero, suc, ◌+◌, ◌-◌, ◌*◌, ◌/◌, Bool, true, false, not, Option, none, some, String, List, [],
  ◌∷◌, Exec, Result, ok, err, Error, zero_division, value_error, pure, raise, ◌>>=◌, ◌>>◌, nat_eq,
  ◌==◌, ltb, if◌then◌else◌,
}
use m_scale.Mock.Commands.{is_space}
use m_scale.Zmq.Report.{Fraction}
use m_scale.Publisher.{second, Outside, Reading, delay_for}

pub record Subscriber : Type 0 where
  pub msg_cnt : ℕ
  pub recv_rate : ℕ
  pub reconnect_cnt : ℕ
  pub reconnect_rate : ℕ
  pub first_msg_time_r : ℕ
  pub last_msg_time_r : ℕ
  -- The index of the message that is expected next, a variable of `run`.
  pub start_idx : ℕ

-- What `get_stats` answers; the rate is a quotient of floats, whose bottom may be negative.
pub record SubStats : Type 0 where
  pub msg_cnt : ℕ
  pub reconnect_cnt : ℕ
  pub rate : Fraction

-- `HDZmqsRepSrv.__init__`
abbrev pub new_subscriber : Subscriber
new_subscriber = record {
  msg_cnt = 0;
  recv_rate = 0;
  reconnect_cnt = 0;
  reconnect_rate = 0;
  first_msg_time_r = 0;
  last_msg_time_r = second;
  start_idx = 0;
}

unfoldable pub reset_stats : Subscriber → Subscriber
reset_stats s = record s {
  first_msg_time_r = 0;
  last_msg_time_r = second;
  msg_cnt = 0;
  reconnect_cnt = 0;
}

unfoldable pub update_config : ℕ → ℕ → Subscriber → Subscriber
update_config recv_rate reconnect_rate s = record s {
  recv_rate = recv_rate;
  reconnect_rate = reconnect_rate;
}

unfoldable pub get_stats : Subscriber → Result SubStats
get_stats s =
    if s.last_msg_time_r == s.first_msg_time_r
    then err zero_division
    else ok (record {
      msg_cnt = s.msg_cnt;
      reconnect_cnt = s.reconnect_cnt;
      rate = record {
        top = record { plus = s.msg_cnt * second; minus = 0 };
        bottom = record { plus = s.last_msg_time_r; minus = s.first_msg_time_r };
      };
    })

abbrev pub starts_word : String → Bool
starts_word String.[] = false
starts_word (String.◌∷◌ c s) = not (is_space (code c))

-- `s.split()`
unfoldable pub split : String → List String
split String.[] = []
split (String.◌∷◌ c s) =
    let rest = split s in
    if is_space (code c) then rest else elim rest [
      | [] ↦ String.◌∷◌ c "" ∷ []
      | w ∷ ws ↦ if starts_word s then String.◌∷◌ c w ∷ ws else String.◌∷◌ c "" ∷ w ∷ ws
    ]

module _ (int : String → Option ℕ) where
  -- `index, messagedata = string.split(); int(index)`
  unfoldable pub index_of : String → Result ℕ
  unfolding split
  index_of s = elim (split s) [
    | index ∷ messagedata ∷ [] ↦ elim (int index) [ none ↦ err value_error | some i ↦ ok i ]
    | _ ↦ err value_error
  ]

  module _ {W : Type 0} (o : Outside W) where
    abbrev pub State : Type 0
    State = Subscriber × W

    abbrev pub now : Exec State ℕ
    now (s, w) = let (t, w') = o.time w in (ok t, (s, w'))

    abbrev pub change : (Subscriber → Subscriber) → Exec State (Unit {0})
    change f (s, w) = (ok tt, (f s, w))

    abbrev pub subscriber : Exec State Subscriber
    subscriber (s, w) = (ok s, (s, w))

    -- The first message since the last reset sets the time of the first message.
    unfoldable pub note_first : Exec State (Unit {0})
    note_first (s, w) =
        if s.msg_cnt == 0
        then (let (t, w') = o.time w in (ok tt, (record s { first_msg_time_r = t }, w')))
        else (ok tt, (s, w))

    -- The limit of the rate of receiving.
    unfoldable pub throttle : Exec State (Unit {0})
    throttle (s, w) =
        let (t, w') = o.time w in
        let late =
          o.sleep (delay_for (s.msg_cnt * second / s.recv_rate) (t - s.first_msg_time_r)) w' in
        if s.recv_rate == 0 then (ok tt, (s, w)) else (ok tt, (s, late))

    -- Whether it is time to reconnect.
    unfoldable pub is_due : Exec State Bool
    is_due (s, w) =
        let (t, w') = o.time w in
        if s.reconnect_rate == 0 then (ok false, (s, w)) else (
          ok (ltb s.reconnect_cnt (s.reconnect_rate * (t - s.first_msg_time_r) / (1000 * second))),
          (s, w'),
        )

    -- One message.
    unfoldable pub receive : String → Exec State Bool
    unfolding note_first throttle is_due index_of
    receive message = do
      note_first
      change λ s. record s { msg_cnt = s.msg_cnt + 1 }
      i ← λ st. (index_of message, st)
      change λ s. record s { start_idx = i + 1 }
      t ← now
      change λ s. record s { last_msg_time_r = t }
      throttle
      is_due

    -- The main loop, as far as the messages go.
    unfoldable pub listen : List String → Exec State (Unit {0})
    unfolding receive
    listen [] = pure tt
    listen (message ∷ messages) = do
      due ← receive message
      change λ s. if due then record s { reconnect_cnt = s.reconnect_cnt + 1 } else s
      listen messages

    -- A message at the subscriber for Kafka, which does not read it.
    unfoldable pub kafka_receive : Exec State (Unit {0})
    unfolding note_first throttle
    kafka_receive = do
      note_first
      change λ s. record s { msg_cnt = s.msg_cnt + 1 }
      t ← now
      change λ s. record s { last_msg_time_r = t }
      throttle
