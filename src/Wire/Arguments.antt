-- ===== src/Wire/Arguments.antt =====
-- The keyword arguments of a command: `do_req_only` of h_analyser.py against the loop over
-- `msg.cmd.argument` in hdaemon.py.
use m_scale.Common.{
  string_eq, ◌≡◌, refl, ◌∙◌, true, [], ◌∷◌, arith, String, if◌then◌else◌, subst, IsDistinct, sym,
}
use m_scale.Dict.{Dict, insert, keys, HasKeysOnce}
use m_scale.Dict.Entries.{insert_all, insert_all-nil}
use m_scale.Protocol.{Value, int, float, text, bool_value, str_of, Codec, is_plain_text}
use m_scale.Analyser.{encode_arg, encode_args}
use m_scale.Daemon.{decode_arg, decode_args}

module _ (c : Codec) where
  -- What the handler receives for a value: numbers as they are (a float in single precision), other
  -- values as their text, and `True` where that text is no plain text.
  abbrev pub received : Value c.Float → Value c.Float
  received (int n) = int n
  received (float x) = float (c.widen (c.single x))
  received v = if is_plain_text (str_of v) then text (str_of v) else bool_value true

  abbrev pub receive_all : Dict String (Value c.Float) → Dict String (Value c.Float)
  receive_all [] = []
  receive_all ((k, v) ∷ d) = (k, received v) ∷ receive_all d

  keys-receive_all : (d : Dict String (Value c.Float)) → keys (receive_all d) ≡ keys d
  keys-receive_all [] = refl
  keys-receive_all ((k, v) ∷ d) = ground (arith, keys-receive_all d)

  decode_arg-encode_arg :
      (k : String) (v : Value c.Float) → decode_arg c (encode_arg c k v) ≡ received v
  unfolding decode_arg encode_arg
  decode_arg-encode_arg k (int n) = refl
  decode_arg-encode_arg k (float x) = refl
  decode_arg-encode_arg k v = ground arith

  name-encode_arg : (k : String) (v : Value c.Float) → (encode_arg c k v).name ≡ k
  unfolding encode_arg
  name-encode_arg k (int n) = refl
  name-encode_arg k (float x) = refl
  name-encode_arg k v = ground arith

  decode_args-insert_all :
      (d b : Dict String (Value c.Float))
      → decode_args c (encode_args c d) b ≡ insert_all (receive_all d) b
  unfolding decode_args encode_args
  decode_args-insert_all [] b = refl
  decode_args-insert_all ((k, v) ∷ d) b = cc (
    name-encode_arg k v,
    decode_arg-encode_arg k v,
    decode_args-insert_all d (insert b k (received v)),
  )

  -- The handler of a command is called with exactly the keywords that the master gave, each with the
  -- value that `received` says, for any keyword arguments (their names are distinct).
  pub decode_args-encode_args :
      (kwargs : Dict String (Value c.Float))
      → HasKeysOnce kwargs
      → decode_args c (encode_args c kwargs) [] ≡ receive_all kwargs
  decode_args-encode_args kwargs h =
      decode_args-insert_all kwargs []
      ∙ insert_all-nil (receive_all kwargs) (subst IsDistinct (sym (keys-receive_all kwargs)) h)
