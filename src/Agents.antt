-- ===== src/Agents.antt =====
-- The agents of src/main/python/hydra/selftest/agents.py: a process that answers requests, publishes
-- numbers and receives those of another. Each function is what one of its three threads does by
-- itself; how the threads come between each other's accesses to the object is not modelled. Delays are
-- milliseconds; `float` and `int` are Python's, None where they raise.
use Prim.Native.String.{◌++◌ as ◌+++◌}
use m_scale.Common.{
  ℕ, suc, ◌+◌, Bool, true, false, Option, none, some, String, [], ◌∷◌, ok, err, Exec, Result,
  attribute_error, index_error, value_error, string_eq, ◌==◌, if◌then◌else◌,
}
use m_scale.Hydra.Apps.{str_of_ℕ}
use m_scale.Hydra.Usage.{startswith}
use m_scale.Marathon.Mesos.{before, after}
use m_scale.Subscriber.{split}

-- The counters are missing until their thread has started.
pub record Agent : Type 0 where
  pub pub_enabled : Bool
  pub send_delay : ℕ
  pub pub_msg_cnt : Option ℕ
  pub sub_msg_cnt : Option ℕ
  pub total_value : ℕ

-- `Test.__init__`
abbrev pub new_agent : Agent
new_agent = record {
  pub_enabled = true;
  send_delay = 1000;
  pub_msg_cnt = none;
  sub_msg_cnt = none;
  total_value = 0;
}

-- `str(self.pub_msg_cnt)`
unfoldable pub count_text : Option ℕ → Result String
unfolding str_of_ℕ
count_text none = err attribute_error
count_text (some n) = ok (str_of_ℕ (suc n) n)

-- `message.split(':')[1]`, as a number.
unfoldable pub delay_of : (String → Option ℕ) → String → Result ℕ
unfolding before after
delay_of float message = elim (after 58 message) [
  | none ↦ err index_error
  | some d ↦ elim (float (before 58 d)) [ none ↦ err value_error | some delay ↦ ok delay ]
]

module _ (float int : String → Option ℕ) where
  -- The answer to a request that starts with `delay`.
  unfoldable pub set_delay : String → Exec Agent String
  unfolding delay_of
  set_delay message a = elim (delay_of float message) [
    | err e ↦ (err e, a)
    | ok delay ↦ (ok "ok", record a { send_delay = delay })
  ]

  -- A round of the loop of `rep_task`, with the answer; an exception ends the thread.
  unfoldable pub on_request : String → Exec Agent String
  unfolding count_text set_delay startswith
  on_request message a =
      if message == "ping"
      then (ok "pong", a)
      else if message == "disable_pub"
      then (ok "ok", record a { pub_enabled = false })
      else if message == "enable_pub"
      then (ok "ok", record a { pub_enabled = true })
      else if message == "reset_pub"
      then (ok "ok", record a { pub_msg_cnt = some 0 })
      else if message == "reset_sub"
      then (ok "ok", record a { sub_msg_cnt = some 0 })
      else if message == "cnt_pub"
      then (count_text a.pub_msg_cnt, a)
      else if message == "cnt_sub"
      then (count_text a.sub_msg_cnt, a)
      else if startswith message "delay"
      then set_delay message a
      else (ok ("Unknown message " +++ message), a)

  -- What `pub_task` does before its loop.
  unfoldable pub start_pub : Agent → Agent
  start_pub a = record a { pub_msg_cnt = some 0 }

  -- The text `"%d %d" % (topic, messagedata)`
  unfoldable pub pub_message : ℕ → ℕ → String
  unfolding str_of_ℕ
  pub_message topic n = str_of_ℕ (suc topic) topic +++ " " +++ str_of_ℕ (suc n) n

  -- A round of the loop of `pub_task` with the topic that `random` gave, with no request within it: the
  -- message that is sent.
  unfoldable pub pub_round : ℕ → Agent → Option String × Agent
  unfolding pub_message
  pub_round topic a = elim a.pub_msg_cnt [
    | none ↦ (none, a)
    | some n ↦
        if a.pub_enabled
        then (some (pub_message topic n), record a { pub_msg_cnt = some (n + 1) })
        else (none, a)
  ]

  -- What `sub_task` does before its loop.
  unfoldable pub start_sub : Agent → Agent
  start_sub a = record a { sub_msg_cnt = some 0; total_value = 0 }

  -- A message at `sub_task`: two words, the second a number.
  unfoldable pub on_message : String → Exec Agent (Unit {0})
  unfolding split
  on_message string a = elim (split string) [
    | topic ∷ messageData ∷ [] ↦ elim (int messageData) [
      | none ↦ (err value_error, a)
      | some v ↦ elim a.sub_msg_cnt [
        | none ↦ (err attribute_error, a)
        | some n ↦ (ok tt, record a { total_value = a.total_value + v; sub_msg_cnt = some (n + 1) })
      ]
    ]
    | _ ↦ (err value_error, a)
  ]
