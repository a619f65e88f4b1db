-- ===== src/Subscriber/Arguments.antt =====
-- The arguments of the `run` of zmq_sub.py, rmq_sub.py and kafka_sub.py, and the handlers of kafka_sub.py.
-- `int` is Python's, None where it raises.
use m_scale.Common.{
  ℕ, ◌*◌, Option, none, some, String, List, ◌∷◌, Result, ok, err, raised, value_error,
  zero_division, string_eq, nat_eq, ◌==◌, if◌then◌else◌,
}
use m_scale.Publisher.{second}
use m_scale.Subscriber.{Subscriber, SubStats}

module _ (int : String → Option ℕ) where
  -- The address and the port of the publisher.
  unfoldable pub zmq_sub_args : List String → Result (String × ℕ)
  zmq_sub_args (a ∷ pub_ip ∷ pub_port ∷ argv) = elim (int pub_port) [
    | none ↦ err value_error
    | some port ↦
        if pub_ip == "" then err (raised "zmq-sub needs a pub server") else ok (pub_ip, port)
  ]
  zmq_sub_args argv = err (raised "zmq-sub needs a pub server")

  -- The topic, the address of the broker and the size of the buffer: with too few of them the name of the
  -- topic is not bound, and the messages that would say so are never reached.
  unfoldable pub kafka_sub_args : List String → Result (String × String × ℕ)
  kafka_sub_args (a ∷ topic_name ∷ pub_ip ∷ size ∷ argv) = elim (int size) [
    | none ↦ err value_error
    | some n ↦
        if topic_name == ""
        then err (raised "Kafka-Sub needs a TOPIC to subscribe to.")
        else if pub_ip == ""
        then err (raised "Kafka Broker IP is not provided to consumer.")
        else ok (topic_name, pub_ip, n)
  ]
  kafka_sub_args argv = err (raised "UnboundLocalError")

unfoldable pub rmq_sub_args : List String → Result String
rmq_sub_args (a ∷ pub_ip ∷ argv) =
    if pub_ip == "" then err (raised "Rmq-sub needs a pub server") else ok pub_ip
rmq_sub_args argv = err (raised "Rmq-sub needs a pub server")

-- `HDKafkasRepSrv.get_stats` and `reset_stats`, on the object of the ZeroMQ subscriber, which does not
-- reconnect here.
unfoldable pub kafka_get_stats : Subscriber → Result SubStats
kafka_get_stats s =
    if s.last_msg_time_r == s.first_msg_time_r
    then err zero_division
    else ok (record {
      msg_cnt = s.msg_cnt;
      reconnect_cnt = 0;
      rate = record {
        top = record { plus = s.msg_cnt * second; minus = 0 };
        bottom = record { plus = s.last_msg_time_r; minus = s.first_msg_time_r };
      };
    })

unfoldable pub kafka_reset_stats : Subscriber → Subscriber
kafka_reset_stats s = record s { first_msg_time_r = 0; last_msg_time_r = second; msg_cnt = 0 }
