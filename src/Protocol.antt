-- ===== src/Protocol.antt =====
-- src/main/python/hydra/lib/hdaemon.proto (the messages between a master and the daemon of a test
-- instance) and util.istext. Serialising is protobuf's: it is the interface `Codec`.
use Prim.Native.Char.{code}
use m_scale.Common.{
  ℕ, suc, ◌*◌, ◌≡◌, Bool, true, false, ◌&&◌, ◌||◌, Option, some, String, List, leb, ltb, ◌^◌,
  nat_beq, if◌then◌else◌,
}
use m_scale.Integer.{ℤ, pos, negsuc}

-- The ints that an `int64` field holds.
abbrev pub is_int64 : ℤ → Bool
is_int64 (pos n) = ltb n (2 ^ 63)
is_int64 (negsuc n) = ltb n (2 ^ 63)

pub record Int64 : Type 0 where
  pub value : ℤ
  pub in_range : is_int64 value ≡ true

-- The values that a command or a response carries. `object s` is any other object, `s` its `str()`. An
-- int beyond 64 bits, with which protobuf raises, is not modelled.
pub data Value (Float : Type 0) : Type 0 where
  int : Int64 → Value Float
  float : Float → Value Float
  text : String → Value Float
  none_value : Value Float
  bool_value : Bool → Value Float
  object : String → Value Float

module _ {Float : Type 0} where
  -- `str(value)`; the code asks for it at values that are no int and no float only.
  abbrev pub str_of : Value Float → String
  str_of (int n) = ""
  str_of (float x) = ""
  str_of (text s) = s
  str_of none_value = "None"
  str_of (bool_value true) = "True"
  str_of (bool_value false) = "False"
  str_of (object s) = s

-- CommandArgs and Resp have the same fields; `floatValue` is of single precision.
pub record Field (Single : Type 0) : Type 0 where
  pub name : String
  pub str_value : Option String
  pub int_value : Option Int64
  pub float_value : Option Single
  pub byte_value : Option String

pub data CommandType : Type 0 where
  subcmd stop : CommandType

pub record Command (Single : Type 0) : Type 0 where
  pub cmd_name : String
  pub argument : List (Field Single)

pub record CommandMessage (Single : Type 0) : Type 0 where
  pub type : CommandType
  pub cmd : Option (Command Single)

pub record ResponseMessage (Single : Type 0) : Type 0 where
  pub status : String
  pub resp : List (Field Single)

-- What protobuf and json do for the two programs: a message comes back from its bytes as it was. A float
-- in a field is rounded by `single`, and read back by `widen`. Names and statuses are the programs' own
-- texts, which protobuf accepts.
pub record Codec : Type 1 where
  pub Float : Type 0
  pub Raw : Type 0
  pub Single : Type 0
  pub single : Float → Single
  pub widen : Single → Float
  pub serialize_command : CommandMessage Single → Raw
  pub parse_command : Raw → Option (CommandMessage Single)
  pub serialize_response : ResponseMessage Single → Raw
  pub parse_response : Raw → Option (ResponseMessage Single)
  pub json_pair : String → String → Raw
  -- `json.loads`; `none` where it raises.
  pub loads : String → Option (Value Float)
  -- Whether a `string` field takes this byte string; if not, the assignment raises ValueError.
  pub accepts : String → Bool
  pub parse_command_lem : (m : CommandMessage Single) → parse_command (serialize_command m) ≡ some m
  pub parse_response_lem :
      (m : ResponseMessage Single) → parse_response (serialize_response m) ≡ some m

-- `"".join(map(chr, range(32, 127))) + "\n\r\t\b"`
abbrev pub is_text_character : ℕ → Bool
is_text_character c =
    (leb 32 c && leb c 126) || nat_beq c 10 || nat_beq c 13 || nat_beq c 9 || nat_beq c 8

-- `"\0" in s`
unfoldable pub has_nul : String → Bool
has_nul String.[] = false
has_nul (String.◌∷◌ c s) = nat_beq (code c) 0 || has_nul s

-- `len(s.translate(_null_trans, text_characters))`
unfoldable pub count_nontext : String → ℕ
count_nontext String.[] = 0
count_nontext (String.◌∷◌ c s) =
    if is_text_character (code c) then count_nontext s else suc (count_nontext s)

unfoldable pub len : String → ℕ
len String.[] = 0
len (String.◌∷◌ c s) = suc (len s)

-- `threshold` is the fraction `num / den`; 0 / 1 by default.
unfoldable pub istext : ℕ → ℕ → String → Bool
unfolding has_nul count_nontext len
istext num den s =
    if has_nul s
    then false
    else if nat_beq (len s) 0
    then true
    else leb (count_nontext s * den) (num * len s)

unfoldable pub is_plain_text : String → Bool
unfolding istext
is_plain_text = istext 0 1
