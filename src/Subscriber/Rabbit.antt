-- ===== src/Subscriber/Rabbit.antt =====
-- `HDRmqsRepSrv` of rmqtest/rmq_sub.py: it counts in `msg_cnt`, and reports the count of `run_data`.
use m_scale.Common.{
  ℕ, ◌+◌, ◌*◌, Bool, true, false, String, List, [], ◌∷◌, Exec, ok, err, value_error, nat_eq, ◌==◌,
  if◌then◌else◌,
}
use m_scale.Publisher.{second, Outside}
use m_scale.Subscriber.{SubStats, split}

pub record RmqSubscriber : Type 0 where
  pub counted : ℕ
  pub msg_cnt : ℕ
  pub first_msg_time : ℕ
  pub last_msg_time : ℕ

unfoldable pub rmq_reset_stats : RmqSubscriber → RmqSubscriber
rmq_reset_stats s = record { counted = 0; msg_cnt = 0; first_msg_time = 0; last_msg_time = 0 }

unfoldable pub rmq_get_stats : RmqSubscriber → SubStats
rmq_get_stats s = record {
  msg_cnt = s.msg_cnt;
  reconnect_cnt = 0;
  rate =
      (if s.last_msg_time == s.first_msg_time
        then record {
          top = record { plus = 0; minus = 0 };
          bottom = record { plus = 1; minus = 0 };
        }
        else record {
          top = record { plus = s.msg_cnt * second; minus = 0 };
          bottom = record { plus = s.last_msg_time; minus = s.first_msg_time };
        });
}

abbrev pub is_pair : List String → Bool
is_pair (a ∷ b ∷ []) = true
is_pair _ = false

module _ {W : Type 0} (o : Outside W) where
  -- `callback`: the text is to be of two words.
  unfoldable pub callback : String → Exec (RmqSubscriber × W) (Unit {0})
  unfolding split
  callback body (s, w) =
      let (t, w1) = o.time w in
      let s1 = record s {
        counted = s.counted + 1;
        first_msg_time = if s.first_msg_time == 0 then t else s.first_msg_time;
      } in
      let w2 = if s.first_msg_time == 0 then w1 else w in
      let (t2, w3) = o.time w2 in
      if is_pair (split body)
      then (ok tt, (record s1 { msg_cnt = s1.counted; last_msg_time = t2 }, w3))
      else (err value_error, (s1, w2))
