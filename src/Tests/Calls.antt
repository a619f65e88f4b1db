-- ===== src/Tests/Calls.antt =====
-- A daemon with one counter, over a codec that keeps the messages as they are, and a marathon that
-- fails at first.
use m_scale.Common.{
  ◌≤◌, ◌+◌, ◌^◌, ltb, if◌then◌else◌, arith, ℕ, suc, ◌≡◌, ◌≢◌, refl, true, false, String, none, some,
  Option, ok, err, Error, key_error, [], ◌∷◌, attribute_error, string_eq,
}
use m_scale.Integer.{pos}
use m_scale.Dict.{Dict}
use m_scale.Protocol.{Value, int, text, bool_value, CommandMessage, ResponseMessage, Codec}
use m_scale.Analyser.{status, single_value, do_req_only, do_resp_only, encode_args}
use m_scale.Daemon.{Answer, other, Handler, Server, serving, receive, crash, decode_args}
use m_scale.Marathon.{Client}
use m_scale.Marathon
use m_scale.Marathon.Timeouts.{Settles, scale_app-Settles}
use m_scale.Wire.Arguments.{receive_all, decode_args-encode_args}
use m_scale.Wire.Responses.{seen}
use m_scale.Wire.Calls.{call_returns, call_raises, unknown_command_ends_daemon}

data Packet : Type 0 where
  command : CommandMessage ℕ → Packet
  response : ResponseMessage ℕ → Packet
  json : String → String → Packet

abbrev int64 : (n : ℕ) → ltb n (2 ^ 63) ≡ true → Value ℕ
int64 n small = int (record { value = pos n; in_range = small })

abbrev as_command : Packet → Option (CommandMessage ℕ)
as_command (command m) = some m
as_command (response m) = none
as_command (json k v) = none

abbrev as_response : Packet → Option (ResponseMessage ℕ)
as_response (command m) = none
as_response (response m) = some m
as_response (json k v) = none

abbrev codec : Codec
codec = record {
  Float = ℕ;
  Raw = Packet;
  Single = ℕ;
  single = λ x. x;
  widen = λ x. x;
  serialize_command = command;
  parse_command = as_command;
  serialize_response = response;
  parse_response = as_response;
  json_pair = json;
  loads = λ s. none;
  accepts = λ s. true;
  parse_command_lem = λ m. refl;
  parse_response_lem = λ m. refl;
}

-- Counts its calls, and answers as `ok` with a constant.
abbrev count_call : Handler ℕ ℕ
count_call kwargs s = (ok ("ok", other (int64 4 refl)), suc s)

abbrev fail : Handler ℕ ℕ
fail kwargs s = (err key_error, suc s)

abbrev traceback : Error → String
traceback e = "Traceback"

abbrev server : Server ℕ ℕ
server = record {
  object = 4;
  cbfn = ("count", count_call) ∷ ("fail", fail) ∷ [];
  t_exceptions = [];
  msg_is_message = true;
  phase = serving;
}

abbrev arguments : Dict String (Value ℕ)
arguments = ("rate", int64 10 refl) ∷ ("name", text "a") ∷ ("flag", bool_value true) ∷ []

decode_args-encode_args_example :
    decode_args codec (encode_args codec arguments) [] ≡ receive_all codec arguments
decode_args-encode_args_example = decode_args-encode_args codec arguments (refl, (refl, (refl, tt)))

call_returns_example :
    ((receive codec traceback server (do_req_only codec "count" arguments)).0
      ≡ record server { object = 5 })
    × (do_resp_only codec (receive codec traceback server (do_req_only codec "count" arguments)).1
        ≡ ok (status "ok", seen codec (other (int64 4 refl))))
unfolding m_scale.Daemon.hash_of
call_returns_example =
    call_returns codec traceback server "count" arguments count_call "ok" (other (int64 4 refl)) 5
      (refl, refl) (refl, (refl, (refl, tt))) refl refl (refl, tt) tt refl

call_raises_example :
    ((receive codec traceback server (do_req_only codec "fail" arguments)).0
      ≡ record server { object = 5 })
    × (do_resp_only codec (receive codec traceback server (do_req_only codec "fail" arguments)).1
        ≡ ok (status "exception", single_value (text "Traceback")))
call_raises_example =
    call_raises codec traceback server "fail" arguments fail key_error 5 (refl, refl)
      (refl, (refl, (refl, tt))) refl refl refl

unknown_command_ends_daemon_example :
    ((receive codec traceback server (do_req_only codec "other" arguments)).1 ≢ none)
    × (receive codec traceback
          (receive codec traceback server (do_req_only codec "other" arguments)).0
          (do_req_only codec "count" arguments)
        ≡ (crash attribute_error (record server { msg_is_message = false }), none))
unknown_command_ends_daemon_example =
    unknown_command_ends_daemon codec traceback server "other" arguments
      (do_req_only codec "count" arguments) (refl, refl) refl

-- A marathon that fails until the clock shows twenty seconds; the state is the clock.
abbrev client : Client ℕ
client = record {
  time = λ w. w;
  sleep = λ d w. w + d;
  get_app = λ app w. (ok none, w);
  delete_app = λ app w. (ok tt, w);
  scale_app = λ app scale w. (if ltb w 20000 then err key_error else ok tt, w);
  list_apps = λ w. (ok [], w);
  create_app = λ app attr w. (err key_error, w);
  delete_deployment = λ d w. (ok tt, w);
  list_deployments = λ w. (ok [], w);
  ping = λ w. (ok "pong", w);
  kill_task = λ app t w. (ok tt, w);
}

sleeps : (d w : ℕ) → w + d ≤ w + d
sleeps d w = omega arith

scale_app-Settles_example :
    Settles client sleeps
      (client.scale_app "pub" 4)
      300005
      5
      (Marathon.scale_app client 31 "pub" 4 300000 5)
scale_app-Settles_example =
    scale_app-Settles client sleeps "pub" 4 (λ w. ground arith) 30 300000 5 (ground arith)
