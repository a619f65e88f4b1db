-- ===== src/Mock/Commands.antt =====
-- The command that `create_app` of mock_backend.py makes of the one for mesos.
use Prim.Native.Char.{code}
use Prim.Native.String.{◌++◌ as ◌+++◌}
use m_scale.Common.{
  List, [], ◌∷◌, ℕ, Bool, ◌||◌, ◌&&◌, Option, none, some, String, leb, nat_beq, if◌then◌else◌,
}
use m_scale.Hydra.Usage.{startswith}

-- `s[s.rfind(needle):]` where the text is found.
unfoldable pub from_last : String → String → Option String
unfolding startswith
from_last needle String.[] = none
from_last needle (String.◌∷◌ c s) = elim (from_last needle s) [
  | some t ↦ some t
  | none ↦ if startswith (String.◌∷◌ c s) needle then some (String.◌∷◌ c s) else none
]

-- `s[-1:]`, which is what is left of a text that has no such part.
unfoldable pub last_character : String → String
last_character String.[] = ""
last_character (String.◌∷◌ c String.[]) = String.◌∷◌ c ""
last_character (String.◌∷◌ c (String.◌∷◌ d s)) = last_character (String.◌∷◌ d s)

-- `s[s.find(' '):]` where there is a space.
unfoldable pub from_space : String → Option String
from_space String.[] = none
from_space (String.◌∷◌ c s) = if nat_beq (code c) 32 then some (String.◌∷◌ c s) else from_space s

abbrev pub is_space : ℕ → Bool
is_space n = nat_beq n 32 || (leb 9 n && leb n 13)

-- `s.strip()`
unfoldable pub lstrip : String → String
lstrip String.[] = ""
lstrip (String.◌∷◌ c s) = if is_space (code c) then lstrip s else String.◌∷◌ c s

unfoldable pub rstrip : String → String
rstrip String.[] = ""
rstrip (String.◌∷◌ c s) = elim (rstrip s) [
  | String.[] ↦ if is_space (code c) then "" else String.◌∷◌ c ""
  | String.◌∷◌ d t ↦ String.◌∷◌ c (String.◌∷◌ d t)
]

abbrev pub or_last : Option String → String → String
or_last none s = last_character s
or_last (some t) s = t

-- `cmd`, before it is split at its spaces.
unfoldable pub command : String → String
unfolding from_last from_space lstrip rstrip last_character
command cmd =
    let c = or_last (from_last "./hydra" cmd) cmd in
    "hydra " +++ lstrip (rstrip (or_last (from_space c) c))

-- `s.split(' ')`
unfoldable pub split_spaces : String → List String
split_spaces String.[] = "" ∷ []
split_spaces (String.◌∷◌ c s) =
    let rest = split_spaces s in
    if nat_beq (code c) 32
    then "" ∷ rest
    else elim rest [ [] ↦ String.◌∷◌ c "" ∷ [] | word ∷ words ↦ String.◌∷◌ c word ∷ words ]
