-- ===== src/Wire/Calls.antt =====
-- A whole call: `do_req_only` of the master, one round of the daemon's loop, `do_resp_only`.
use Prim.Native.String.{◌++◌ as str_append}
use m_scale.Common.{
  string_eq, ◌≡◌, ◌∙◌, ap, true, false, arith, String, none, some, ok, err, Error, attribute_error,
  ◌==◌, ◌≢◌,
}
use m_scale.Dict.{Dict, lookup, HasKeysOnce}
use m_scale.Protocol.{Value, text, Codec, CommandMessage}
use m_scale.Analyser.{status, single_value, do_req_only, do_resp_only, encode_args, req_msg}
use m_scale.Daemon.{
  Answer, other, Handler, Server, serving, crash, receive, on_raw, on_message, dispatch, unknown,
  answer, call_fn, hash_of,
}
use m_scale.Wire.Arguments.{receive_all, decode_args-encode_args}
use m_scale.Wire.Responses.{
  IsSendable, IsOrdinary, seen, response, encode_resps-fields, read_back, read_back_value,
}

module _ (c : Codec) {S : Type 0} (format_exc : Error → String) where
  abbrev IsListening : Server c.Float S → Type 0
  IsListening srv = (srv.phase ≡ serving) × (srv.msg_is_message ≡ true)

  receive_message :
      (srv : Server c.Float S) (m : CommandMessage c.Single)
      → IsListening srv
      → receive c format_exc srv (c.serialize_command m) ≡ on_message c format_exc srv m
  unfolding receive on_raw
  receive_message srv m l = ground (arith, c.parse_command_lem m)

  answer_sendable :
      (srv : Server c.Float S) (sts : String) (a : Answer c.Float)
      → IsSendable c (hash_of c a)
      → answer c srv sts a ≡ (srv, some (c.serialize_response (response c sts a)))
  unfolding answer
  answer_sendable srv sts a h = ground (arith, encode_resps-fields c (hash_of c a) h)

  dispatch_found :
      (srv : Server c.Float S) (cmd : String) (kwargs : Dict String (Value c.Float))
      (fn : Handler c.Float S) (sts : String) (a : Answer c.Float) (s' : S)
      → HasKeysOnce kwargs
      → lookup srv.cbfn cmd ≡ some fn
      → call_fn c format_exc fn (receive_all c kwargs) srv.object ≡ ((sts, a), s')
      → IsSendable c (hash_of c a)
      → dispatch c format_exc srv
          (some (record { cmd_name = cmd; argument = encode_args c kwargs }))
        ≡ (record srv { object = s' }, some (c.serialize_response (response c sts a)))
  unfolding dispatch
  dispatch_found srv cmd kwargs fn sts a s' k found runs h = ground (
    arith,
    decode_args-encode_args c kwargs k,
    answer_sendable (record srv { object = s' }) sts a h,
  )

  call_answered :
      (srv : Server c.Float S) (cmd : String) (kwargs : Dict String (Value c.Float))
      (fn : Handler c.Float S) (sts : String) (a : Answer c.Float) (s' : S)
      → IsListening srv
      → HasKeysOnce kwargs
      → lookup srv.cbfn cmd ≡ some fn
      → call_fn c format_exc fn (receive_all c kwargs) srv.object ≡ ((sts, a), s')
      → IsSendable c (hash_of c a)
      → receive c format_exc srv (do_req_only c cmd kwargs)
        ≡ (record srv { object = s' }, some (c.serialize_response (response c sts a)))
  unfolding do_req_only on_message
  call_answered srv cmd kwargs fn sts a s' l k found runs h =
      receive_message srv _ l ∙ dispatch_found srv cmd kwargs fn sts a s' k found runs h

  call_fn_ok :
      (fn : Handler c.Float S) (kwargs : Dict String (Value c.Float)) {s s' : S} {sts : String}
      {a : Answer c.Float}
      → fn kwargs s ≡ (ok (sts, a), s')
      → call_fn c format_exc fn kwargs s ≡ ((sts, a), s')
  unfolding call_fn
  call_fn_ok fn kwargs h = ground arith

  call_fn_err :
      (fn : Handler c.Float S) (kwargs : Dict String (Value c.Float)) {s s' : S} {e : Error}
      → fn kwargs s ≡ (err e, s')
      → call_fn c format_exc fn kwargs s ≡ (("exception", other (text (format_exc e))), s')
  unfolding call_fn
  call_fn_err fn kwargs h = ground arith

  -- A call of a registered function that returns `(sts, a)`, with keyword arguments of distinct names,
  -- at a daemon that serves, where protobuf accepts every text of the answer, `sts` is not `exception`,
  -- and an answer that is a dict has distinct keys without `__r`: the daemon goes on serving with the
  -- object as the function left it, and the master is given `sts` and the answer, each value as
  -- `returned` says. The function is called with the arguments as `received` says.
  pub call_returns :
      (srv : Server c.Float S) (cmd : String) (kwargs : Dict String (Value c.Float))
      (fn : Handler c.Float S) (sts : String) (a : Answer c.Float) (s' : S)
      → IsListening srv
      → HasKeysOnce kwargs
      → lookup srv.cbfn cmd ≡ some fn
      → fn (receive_all c kwargs) srv.object ≡ (ok (sts, a), s')
      → IsSendable c (hash_of c a)
      → IsOrdinary c a
      → (sts == "exception") ≡ false
      → ((receive c format_exc srv (do_req_only c cmd kwargs)).0 ≡ record srv { object = s' })
        × (do_resp_only c (receive c format_exc srv (do_req_only c cmd kwargs)).1
            ≡ ok (status sts, seen c a))
  call_returns srv cmd kwargs fn sts a s' l k found runs sendable ordinary named =
      let e = call_answered srv cmd kwargs fn sts a s' l k found (call_fn_ok fn _ runs) sendable in
      (ap (λ p. p.0) e, ap (λ p. do_resp_only c p.1) e ∙ read_back c sts a ordinary named)

  -- A call of a registered function that raises, with keyword arguments of distinct names, at a daemon
  -- that serves, where protobuf accepts the text of the traceback: the daemon goes on serving, with the
  -- object as the function left it, and the master is given the status `exception` with the traceback.
  pub call_raises :
      (srv : Server c.Float S) (cmd : String) (kwargs : Dict String (Value c.Float))
      (fn : Handler c.Float S) (e : Error) (s' : S)
      → IsListening srv
      → HasKeysOnce kwargs
      → lookup srv.cbfn cmd ≡ some fn
      → fn (receive_all c kwargs) srv.object ≡ (err e, s')
      → c.accepts (format_exc e) ≡ true
      → ((receive c format_exc srv (do_req_only c cmd kwargs)).0 ≡ record srv { object = s' })
        × (do_resp_only c (receive c format_exc srv (do_req_only c cmd kwargs)).1
            ≡ ok (status "exception", single_value (text (format_exc e))))
  unfolding hash_of
  call_raises srv cmd kwargs fn e s' l k found runs sendable =
      let a : Answer c.Float = other (text (format_exc e)) in
      let q =
        call_answered srv cmd kwargs fn "exception" a s' l k found (call_fn_err fn _ runs)
          (sendable, tt) in
      (
        ap (λ p. p.0) q,
        ap (λ p. do_resp_only c p.1) q ∙ read_back_value c "exception" (text (format_exc e)),
      )

  next_crashes :
      (srv : Server c.Float S) (next : c.Raw)
      → IsListening srv
      → receive c format_exc (record srv { msg_is_message = false }) next
        ≡ (crash attribute_error (record srv { msg_is_message = false }), none)
  unfolding receive
  next_crashes srv next l = ground arith

  unknown_answered :
      (srv : Server c.Float S) (cmd : String) (kwargs : Dict String (Value c.Float))
      → IsListening srv
      → lookup srv.cbfn cmd ≡ none
      → (raw : c.Raw) × (receive c format_exc srv (do_req_only c cmd kwargs)
          ≡ (record srv { msg_is_message = false }, some raw))
  unfolding do_req_only on_message dispatch unknown req_msg
  unknown_answered srv cmd kwargs l missing = (
    c.json_pair "error" (str_append "UNKNOWN message [" (str_append cmd "] received... ")),
    receive_message srv (req_msg c cmd kwargs) l ∙ ground arith,
  )

  -- A command whose name is not registered: the daemon answers, and the next request, whatever it is,
  -- ends its thread with an AttributeError and gets no answer, since the loop has bound `msg` to the
  -- text of the error.
  pub unknown_command_ends_daemon :
      (srv : Server c.Float S) (cmd : String) (kwargs : Dict String (Value c.Float)) (next : c.Raw)
      → IsListening srv
      → lookup srv.cbfn cmd ≡ none
      → ((receive c format_exc srv (do_req_only c cmd kwargs)).1 ≢ none)
        × (receive c format_exc (receive c format_exc srv (do_req_only c cmd kwargs)).0 next
            ≡ (crash attribute_error (record srv { msg_is_message = false }), none))
  unknown_command_ends_daemon srv cmd kwargs next l missing =
      let (raw, e) = unknown_answered srv cmd kwargs l missing in
      (rw e (λ h. cc), rw e (next_crashes srv next l))
