-- ===== src/Wire/Responses.antt =====
-- The answer of a handler: the second half of the request loop in hdaemon.py against `do_resp_only`
-- of h_analyser.py.
use m_scale.Common.{
  string_eq, ◌≡◌, refl, ◌∙◌, subst, sym, true, false, List, [], ◌∷◌, arith, String, none, some, ok,
  ◌==◌, IsDistinct,
}
use m_scale.Dict.{Dict, insert, keys, has_key, lookup, HasKeysOnce}
use m_scale.Dict.Entries.{insert_all, insert_all-nil}
use m_scale.Protocol.{Value, int, float, text, str_of, Field, Codec, ResponseMessage}
use m_scale.Analyser.{
  Status, status, Reply, single_value, decode_resp, decode_resps, unwrap_r, read_response,
  do_resp_only,
}
use m_scale.Analyser
use m_scale.Daemon.{Answer, other, hash_of, encode_resp, encode_resps}
use m_scale.Daemon

module _ (c : Codec) where
  -- What the master receives for a value: numbers as they are (a float in single precision), every
  -- other value as its text.
  abbrev pub returned : Value c.Float → Value c.Float
  returned (int n) = int n
  returned (float x) = float (c.widen (c.single x))
  returned v = text (str_of v)

  abbrev pub return_all : Dict String (Value c.Float) → Dict String (Value c.Float)
  return_all [] = []
  return_all ((k, v) ∷ d) = (k, returned v) ∷ return_all d

  -- Every text that the answer carries is one that a protobuf string takes.
  abbrev pub IsSendable : Dict String (Value c.Float) → Type 0
  IsSendable [] = Unit {0}
  IsSendable ((k, v) ∷ d) = (c.accepts (str_of v) ≡ true) × IsSendable d

  abbrev pub fields : Dict String (Value c.Float) → List (Field c.Single)
  fields [] = []
  fields ((k, int n) ∷ d) =
      record {
        name = k;
        str_value = none;
        int_value = some n;
        float_value = none;
        byte_value = none;
      }
      ∷ fields d
  fields ((k, float x) ∷ d) =
      record {
        name = k;
        str_value = none;
        int_value = none;
        float_value = some (c.single x);
        byte_value = none;
      }
      ∷ fields d
  fields ((k, v) ∷ d) =
      record {
        name = k;
        str_value = some (str_of v);
        int_value = none;
        float_value = none;
        byte_value = none;
      }
      ∷ fields d

  pub encode_resps-fields :
      (d : Dict String (Value c.Float)) → IsSendable d → encode_resps c d ≡ ok (fields d)
  unfolding encode_resps encode_resp
  encode_resps-fields [] h = refl
  encode_resps-fields ((k, int n) ∷ d) h = rw (encode_resps-fields d h.1)
  encode_resps-fields ((k, float x) ∷ d) h = rw (encode_resps-fields d h.1)
  encode_resps-fields ((k, v) ∷ d) h = ground (arith, encode_resps-fields d h.1)

  decode_resps-fields :
      (d b : Dict String (Value c.Float))
      → decode_resps c (fields d) b ≡ insert_all (return_all d) b
  unfolding decode_resps decode_resp
  decode_resps-fields [] b = refl
  decode_resps-fields ((k, int n) ∷ d) b = decode_resps-fields d (insert b k (int n))
  decode_resps-fields ((k, float x) ∷ d) b =
      decode_resps-fields d (insert b k (float (c.widen (c.single x))))
  decode_resps-fields ((k, v) ∷ d) b = decode_resps-fields d (insert b k (text (str_of v)))

  keys-return_all : (d : Dict String (Value c.Float)) → keys (return_all d) ≡ keys d
  keys-return_all [] = refl
  keys-return_all ((k, v) ∷ d) = ground (arith, keys-return_all d)

  lookup-return_all :
      (d : Dict String (Value c.Float)) (k : String)
      → has_key d k ≡ false
      → lookup (return_all d) k ≡ none
  lookup-return_all [] k h = refl
  lookup-return_all ((j, v) ∷ d) k h = ground (arith, lookup-return_all d k)

  pub decode_resps_all :
      (d : Dict String (Value c.Float))
      → HasKeysOnce d
      → decode_resps c (fields d) [] ≡ return_all d
  decode_resps_all d h =
      decode_resps-fields d []
      ∙ insert_all-nil (return_all d) (subst IsDistinct (sym (keys-return_all d)) h)

  -- What the master's caller is given for an answer.
  abbrev pub seen : Answer c.Float → Reply c.Float
  seen (other v) = single_value (returned v)
  seen (Daemon.dict d) = Analyser.dict (return_all d)

  -- A dict that a handler returns has distinct keys, and `__r` is not among them.
  abbrev pub IsOrdinary : Answer c.Float → Type 0
  IsOrdinary (other v) = Unit {0}
  IsOrdinary (Daemon.dict d) = HasKeysOnce d × (has_key d "__r" ≡ false)

  abbrev pub response : String → Answer c.Float → ResponseMessage c.Single
  response sts a = record { status = sts; resp = fields (hash_of c a) }

  unwrap_r-return_all :
      (d : Dict String (Value c.Float))
      → has_key d "__r" ≡ false
      → unwrap_r c (return_all d) ≡ Analyser.dict (return_all d)
  unfolding unwrap_r
  unwrap_r-return_all d h = ground (arith, lookup-return_all d "__r" h)

  pub unwrap_r_single :
      (v : Value c.Float)
      → unwrap_r c (decode_resps c (fields (("__r", v) ∷ [])) []) ≡ single_value (returned v)
  unfolding unwrap_r decode_resps decode_resp
  unwrap_r_single (int n) = refl
  unwrap_r_single (float x) = refl
  unwrap_r_single v = refl

  pub read_response-seen :
      (sts : String) (a : Answer c.Float)
      → IsOrdinary a
      → (sts == "exception") ≡ false
      → read_response c (response sts a) ≡ ok (status sts, seen a)
  unfolding read_response hash_of
  read_response-seen sts (other v) o h = rw (h, unwrap_r_single v)
  read_response-seen sts (Daemon.dict d) o h =
      rw (decode_resps_all d o.0, h, unwrap_r-return_all d o.1)

  read_response-value :
      (sts : String) (v : Value c.Float)
      → read_response c (response sts (other v)) ≡ ok (status sts, single_value (returned v))
  unfolding read_response hash_of decode_resps decode_resp unwrap_r
  read_response-value sts (int n) = ground arith
  read_response-value sts (float x) = ground arith
  read_response-value sts v = ground arith

  pub read_back :
      (sts : String) (a : Answer c.Float)
      → IsOrdinary a
      → (sts == "exception") ≡ false
      → do_resp_only c (some (c.serialize_response (response sts a))) ≡ ok (status sts, seen a)
  unfolding do_resp_only
  read_back sts a o h =
      ground (arith, c.parse_response_lem (response sts a), read_response-seen sts a o h)

  pub read_back_value :
      (sts : String) (v : Value c.Float)
      → do_resp_only c (some (c.serialize_response (response sts (other v))))
        ≡ ok (status sts, single_value (returned v))
  unfolding do_resp_only
  read_back_value sts v =
      ground (arith, c.parse_response_lem (response sts (other v)), read_response-value sts v)
