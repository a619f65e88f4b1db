-- ===== src/Analyser.antt =====
-- src/main/python/hydra/lib/h_analyser.py: the master's end of a daemon's control socket.
use m_scale.Common.{
  Exec, pure, raise, check, ◌>>=◌, ◌>>◌, attribute_error, ◌||◌, not, zero, suc, string_eq, ℕ, Bool,
  true, false, ◌&&◌, Option, none, some, String, List, [], ◌∷◌, ◌==◌, nat_beq, if◌then◌else◌,
  length, Result, ok, err, key_error, decode_error, raised, ◌||◌,
}
use m_scale.Dict.{Dict, lookup, has_key, insert}
use m_scale.Protocol.{
  Value, int, float, text, bool_value, none_value, object, str_of, Field, subcmd, ResponseMessage,
  Codec, is_plain_text, CommandMessage,
}

-- The first half of a returned pair: `False` after a timeout, else the status of the response.
pub data Status : Type 0 where
  timed_out : Status
  status : String → Status

-- The second half: a dict, or the value that stood alone under `__r`.
pub data Reply (Float : Type 0) : Type 0 where
  dict : Dict String (Value Float) → Reply Float
  single_value : Value Float → Reply Float

module _ (c : Codec) where
  -- The body of the loop over kwargs.
  unfoldable pub encode_arg : String → Value c.Float → Field c.Single
  encode_arg key (int n) = record {
    name = key;
    str_value = none;
    int_value = some n;
    float_value = none;
    byte_value = none;
  }
  encode_arg key (float x) = record {
    name = key;
    str_value = none;
    int_value = none;
    float_value = some (c.single x);
    byte_value = none;
  }
  encode_arg key v =
      if is_plain_text (str_of v)
      then record {
        name = key;
        str_value = some (str_of v);
        int_value = none;
        float_value = none;
        byte_value = none;
      }
      else record {
        name = key;
        str_value = none;
        int_value = none;
        float_value = none;
        byte_value = some (str_of v);
      }

  unfoldable pub encode_args : Dict String (Value c.Float) → List (Field c.Single)
  encode_args [] = []
  encode_args ((key, v) ∷ kwargs) = encode_arg key v ∷ encode_args kwargs

  unfoldable pub req_msg : String → Dict String (Value c.Float) → CommandMessage c.Single
  req_msg cmd kwargs = record {
    type = subcmd;
    cmd = some (record { cmd_name = cmd; argument = encode_args kwargs });
  }

  unfoldable pub do_req_only : String → Dict String (Value c.Float) → c.Raw
  unfolding req_msg
  do_req_only cmd kwargs = c.serialize_command (req_msg cmd kwargs)

  unfoldable pub decode_resp : Field c.Single → Value c.Float
  decode_resp itm = elim itm.str_value [
    | some s ↦ text s
    | none ↦ elim itm.int_value [
      | some n ↦ int n
      | none ↦ elim itm.float_value [
        | some x ↦ float (c.widen x)
        | none ↦ elim itm.byte_value [ some b ↦ text b | none ↦ bool_value true ]
      ]
    ]
  ]

  unfoldable pub decode_resps :
      List (Field c.Single) → Dict String (Value c.Float) → Dict String (Value c.Float)
  decode_resps [] rdic = rdic
  decode_resps (itm ∷ rest) rdic = decode_resps rest (insert rdic itm.name (decode_resp itm))

  unfoldable pub unwrap_r : Dict String (Value c.Float) → Reply c.Float
  unwrap_r rdic =
      if nat_beq (length rdic) 1
      then elim (lookup rdic "__r") [ some v ↦ single_value v | none ↦ dict rdic ]
      else dict rdic

  unfoldable pub read_response : ResponseMessage c.Single → Result (Status × Reply c.Float)
  read_response m =
      let rdic = decode_resps m.resp [] in
      if m.status == "exception" && (if has_key rdic "__r" then false else true)
      then err key_error
      else ok (status m.status, unwrap_r rdic)

  -- `none` says that nothing came within the timeout.
  unfoldable pub do_resp_only : Option c.Raw → Result (Status × Reply c.Float)
  do_resp_only none = ok (timed_out, dict [])
  do_resp_only (some rep) = elim (c.parse_response rep) [
    | none ↦ err decode_error
    | some m ↦ read_response m
  ]

  abbrev is_ok_status : Status → Bool
  is_ok_status timed_out = false
  is_ok_status (status s) = s == "ok"

  -- `resp == s`, for a text `s`
  abbrev reply_is : Reply c.Float → String → Bool
  reply_is (single_value (text t)) s = t == s
  reply_is (single_value (int n)) s = false
  reply_is (single_value (float x)) s = false
  reply_is (single_value none_value) s = false
  reply_is (single_value (bool_value b)) s = false
  reply_is (single_value (object t)) s = false
  reply_is (dict d) s = false

  abbrev is_end : Reply c.Float → Bool
  is_end r = reply_is r "done" || reply_is r "stopping" || reply_is r "stopped"

  unfoldable pub load_stats : Dict String (Value c.Float) → Dict String (Value c.Float)
  load_stats [] = []
  load_stats ((k, text s) ∷ d) = (k, elim (c.loads s) [ some v ↦ v | none ↦ text s ]) ∷ load_stats d
  load_stats ((k, v) ∷ d) = (k, v) ∷ load_stats d

  -- `remote` sends a request and polls for the answer, for as long as the timeout allows.
  module _ {W : Type 0} (remote : c.Raw → W → Option c.Raw × W) where
    unfoldable pub do_req_resp :
        String → Dict String (Value c.Float) → Exec W (Status × Reply c.Float)
    do_req_resp cmd kwargs w =
        let (rep, w') = remote (do_req_only cmd kwargs) w in (do_resp_only rep, w')

    unfoldable pub do_ping : Exec W Bool
    do_ping = do
      (sts, response) ← do_req_resp "ping" []
      pure (is_ok_status sts && reply_is response "pong")

    unfoldable pub start_test : Dict String (Value c.Float) → Exec W (Unit {0})
    start_test kwargs = do (sts, resp) ← do_req_resp "teststart" kwargs; check (is_ok_status sts)

    unfoldable pub stop_test : Exec W (Unit {0})
    stop_test = do (sts, resp) ← do_req_resp "teststop" []; check (is_ok_status sts)

    -- The `while True` on fuel: `none` says that the fuel ran out.
    unfoldable pub wait_for_testend : ℕ → Exec W (Option (Unit {0}))
    wait_for_testend zero w = (ok none, w)
    wait_for_testend (suc fuel) w =
        let (r, w') = do_req_resp "teststatus" [] w in
        let rest = wait_for_testend fuel w' in
        elim r [
          | err e ↦ (err e, w')
          | ok (sts, resp) ↦
              if not (is_ok_status sts)
              then (err (raised "Error while waiting for test Status."), w')
              else if is_end resp
              then (ok (some tt), w')
              else rest
        ]

    unfoldable pub get_stats : Exec W (Dict String (Value c.Float))
    get_stats = do
      (sts, resp) ← do_req_resp "getstats" []
      check (is_ok_status sts)
      elim resp [ dict d ↦ pure (load_stats d) | single_value v ↦ raise attribute_error ]

    unfoldable pub reset_stats : Exec W (Reply c.Float)
    reset_stats = do (sts, resp) ← do_req_resp "resetstats" []; check (is_ok_status sts); pure resp

    unfoldable pub update_config : Dict String (Value c.Float) → Exec W (Reply c.Float)
    update_config kwargs = do
      (sts, resp) ← do_req_resp "updateconfig" kwargs
      check (is_ok_status sts)
      pure resp
