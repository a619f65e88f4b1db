-- ===== src/Daemon.antt =====
-- src/main/python/hydra/lib/hdaemon.py: the request loop of a test instance, run in a thread of
-- src/main/python/hydra/lib/utility/h_threading.py.
pub mod Threads
use m_scale.Common.{
  string_eq, Bool, true, false, not, Option, none, some, String, List, [], ◌∷◌, ◌++◌, if◌then◌else◌,
  Result, ok, err, Error, attribute_error, type_error, decode_error, value_error, Exec, pure, raise,
}
use Prim.Native.String.{◌++◌ as str_append}
use m_scale.Dict.{Dict, lookup, insert}
use m_scale.Protocol.{
  Value, int, float, text, none_value, bool_value, str_of, Field, subcmd, stop, Command,
  CommandMessage, Codec,
}

-- The second part of what a handler returns: a dict, or any other value.
pub data Answer (Float : Type 0) : Type 0 where
  dict : Dict String (Value Float) → Answer Float
  other : Value Float → Answer Float

-- A registered function: it may change the object `S` and may raise.
abbrev pub Handler : Type 0 → Type 0 → Type 0
Handler Float S = Dict String (Value Float) → Exec S (String × Answer Float)

pub data Phase : Type 0 where
  serving stopped crashed : Phase

-- `msg_is_message` is false once the name `msg` of the loop is bound to a text.
pub record Server (Float S : Type 0) : Type 0 where
  pub object : S
  pub cbfn : Dict String (Handler Float S)
  pub t_exceptions : List Error
  pub msg_is_message : Bool
  pub phase : Phase

-- The methods that `run` registers; a subclass overrides some.
pub record Methods (Float S : Type 0) : Type 0 where
  pub ping_task : Handler Float S
  pub test_start : Handler Float S
  pub test_stop : Handler Float S
  pub get_stats : Handler Float S
  pub reset_stats : Handler Float S
  pub test_status : Handler Float S
  pub update_config : Handler Float S

module _ {Float S : Type 0} where
  -- A method without `**kwargs` called with an argument: TypeError.
  unfoldable pub no_kwargs : Exec S (String × Answer Float) → Handler Float S
  no_kwargs m [] = m
  no_kwargs m (kw ∷ kwargs) = raise type_error

  abbrev pub ok_none : Exec S (String × Answer Float)
  ok_none = pure ("ok", other none_value)

  unfoldable pub ping_task : Handler Float S
  unfolding no_kwargs
  ping_task = no_kwargs (pure ("ok", other (text "pong")))

  -- The methods of HDaemonRepSrv itself.
  unfoldable pub base_methods : Methods Float S
  unfolding ping_task no_kwargs
  base_methods = record {
    ping_task = ping_task;
    test_start = λ kwargs. ok_none;
    test_stop = no_kwargs ok_none;
    get_stats = no_kwargs ok_none;
    reset_stats = no_kwargs ok_none;
    test_status = no_kwargs ok_none;
    update_config = λ kwargs. ok_none;
  }

  unfoldable pub init : S → Server Float S
  init s = record {
    object = s;
    cbfn = [];
    t_exceptions = [];
    msg_is_message = true;
    phase = serving;
  }

  unfoldable pub register_fn : Server Float S → String → Handler Float S → Server Float S
  register_fn srv token fn = record srv { cbfn = insert srv.cbfn token fn }

  unfoldable pub run : Methods Float S → Server Float S → Server Float S
  unfolding register_fn
  run m srv =
      let a = register_fn srv "ping" m.ping_task in
      let b = register_fn a "teststart" m.test_start in
      let c = register_fn b "teststop" m.test_stop in
      let d = register_fn c "getstats" m.get_stats in
      let e = register_fn d "resetstats" m.reset_stats in
      let f = register_fn e "teststatus" m.test_status in
      register_fn f "updateconfig" m.update_config

  -- `thread_cb`
  unfoldable pub thread_cb : List Error → Server Float S → Server Float S
  thread_cb t_exceptions srv = record srv { t_exceptions = srv.t_exceptions ++ t_exceptions }

  -- An exception leaves `start`; HThread._wrapper hands it to `thread_cb`, and the thread is over.
  unfoldable pub crash : Error → Server Float S → Server Float S
  unfolding thread_cb
  crash e srv = record (thread_cb (e ∷ []) srv) { phase = crashed }

module _ (c : Codec) where
  unfoldable pub decode_arg : Field c.Single → Value c.Float
  decode_arg targ = elim targ.int_value [
    | some n ↦ int n
    | none ↦ elim targ.float_value [
      | some x ↦ float (c.widen x)
      | none ↦ elim targ.str_value [ some s ↦ text s | none ↦ bool_value true ]
    ]
  ]

  unfoldable pub decode_args :
      List (Field c.Single) → Dict String (Value c.Float) → Dict String (Value c.Float)
  decode_args [] kwargs = kwargs
  decode_args (targ ∷ rest) kwargs = decode_args rest (insert kwargs targ.name (decode_arg targ))

  -- `msghash`
  unfoldable pub hash_of : Answer c.Float → Dict String (Value c.Float)
  hash_of (dict d) = d
  hash_of (other v) = ("__r", v) ∷ []

  unfoldable pub encode_resp : String → Value c.Float → Result (Field c.Single)
  encode_resp key (int n) = ok (record {
    name = key;
    str_value = none;
    int_value = some n;
    float_value = none;
    byte_value = none;
  })
  encode_resp key (float x) = ok (record {
    name = key;
    str_value = none;
    int_value = none;
    float_value = some (c.single x);
    byte_value = none;
  })
  encode_resp key v =
      if c.accepts (str_of v)
      then ok (record {
        name = key;
        str_value = some (str_of v);
        int_value = none;
        float_value = none;
        byte_value = none;
      })
      else err value_error

  unfoldable pub encode_resps : Dict String (Value c.Float) → Result (List (Field c.Single))
  encode_resps [] = ok []
  encode_resps ((key, v) ∷ d) = elim (encode_resp key v) [
    | err e ↦ err e
    | ok r ↦ elim (encode_resps d) [ err e ↦ err e | ok rs ↦ ok (r ∷ rs) ]
  ]

  module _ {S : Type 0} where
    -- The `try: sts, msghash_t = fn(**kwargs)` of the loop.
    unfoldable pub call_fn :
        (Error → String)
        → Handler c.Float S
        → Dict String (Value c.Float)
        → S
        → (String × Answer c.Float) × S
    call_fn format_exc fn kwargs s =
        let (r, s') = fn kwargs s in
        (elim r [ ok a ↦ a | err e ↦ ("exception", other (text (format_exc e))) ], s')

    unfoldable pub answer :
        Server c.Float S → String → Answer c.Float → Server c.Float S × Option c.Raw
    unfolding crash
    answer srv sts a = elim (encode_resps (hash_of a)) [
      | err e ↦ (crash e srv, none)
      | ok rs ↦ (srv, some (c.serialize_response (record { status = sts; resp = rs })))
    ]

    unfoldable pub unknown : Server c.Float S → String → Server c.Float S × Option c.Raw
    unknown srv msg = (record srv { msg_is_message = false }, some (c.json_pair "error" msg))

    unfoldable pub dispatch :
        (Error → String)
        → Server c.Float S
        → Option (Command c.Single)
        → Server c.Float S × Option c.Raw
    unfolding call_fn answer unknown
    dispatch format_exc srv none = unknown srv "UNKNOWN message with not cmd field received... "
    dispatch format_exc srv (some cmd) = elim (lookup srv.cbfn cmd.cmd_name) [
      | none ↦
          unknown srv (str_append "UNKNOWN message [" (str_append cmd.cmd_name "] received... "))
      | some fn ↦
          let ((sts, a), s') = call_fn format_exc fn (decode_args cmd.argument []) srv.object in
          answer (record srv { object = s' }) sts a
    ]

    unfoldable pub on_message :
        (Error → String)
        → Server c.Float S
        → CommandMessage c.Single
        → Server c.Float S × Option c.Raw
    unfolding dispatch
    on_message format_exc srv m = elim m.type [
      | stop ↦ (record srv { phase = stopped }, none)
      | subcmd ↦ dispatch format_exc srv m.cmd
    ]

    -- One round of `while True`: the request comes in, the answer goes out.
    unfoldable pub on_raw :
        (Error → String) → Server c.Float S → c.Raw → Server c.Float S × Option c.Raw
    unfolding on_message crash
    on_raw format_exc srv raw =
        if not srv.msg_is_message
        then (crash attribute_error srv, none)
        else elim (c.parse_command raw) [
          | none ↦ (crash decode_error srv, none)
          | some m ↦ on_message format_exc srv m
        ]

    -- A daemon that has stopped or crashed reads no request.
    unfoldable pub receive :
        (Error → String) → Server c.Float S → c.Raw → Server c.Float S × Option c.Raw
    unfolding on_raw
    receive format_exc srv raw = elim srv.phase [
      | serving ↦ on_raw format_exc srv raw
      | stopped ↦ (srv, none)
      | crashed ↦ (srv, none)
    ]
