-- ===== src/Storage/FilePath.antt =====
-- What backends.py uses of texts and of `pathlib.Path`: `lower`, `rstrip("/")`, and the name and
-- the suffix of a path, as Python 3.11 on Linux has them. `lower` is that of ASCII: no other letter
-- becomes one of a suffix that is allowed.
use Prim.Native.Char.{Char, code}
use campus_hr_b.Prelude.{
  ℕ, zero, suc, ◌-◌, String, Bool, Option, none, some, List, [], ◌∷◌, ◌==◌, ◌&&◌, leb, str_eq,
  if◌then◌else◌,
}

-- the letter of a place in a text
unfoldable pub nth : ℕ → String → Char → Char
nth k String.[] d = d
nth zero (String.◌∷◌ c s) d = c
nth (suc k) (String.◌∷◌ c s) d = nth k s d

abbrev pub alphabet : String
alphabet = "abcdefghijklmnopqrstuvwxyz"

unfoldable pub is_upper : Char → Bool
is_upper c = leb b'A' (code c) && leb (code c) b'Z'

unfoldable pub lower_char : Char → Char
unfolding nth is_upper
lower_char c = if is_upper c then nth (code c - b'A') alphabet c else c

-- `str.lower`
unfoldable pub lower : String → String
unfolding lower_char
lower String.[] = ""
lower (String.◌∷◌ c s) = String.◌∷◌ (lower_char c) (lower s)

abbrev pub is_slash : Char → Bool
is_slash c = code c == b'/'

abbrev pub is_dot : Char → Bool
is_dot c = code c == b'.'

-- `str.rstrip("/")`
unfoldable pub rstrip_slash : String → String
rstrip_slash String.[] = ""
rstrip_slash (String.◌∷◌ c s) =
    let rest = rstrip_slash s in if is_slash c && str_eq rest "" then "" else String.◌∷◌ c rest

-- a character before the first part
abbrev pub onto_first : Char → List String → List String
onto_first c [] = String.◌∷◌ c "" ∷ []
onto_first c (part ∷ parts) = String.◌∷◌ c part ∷ parts

-- `str.split("/")`
unfoldable pub split_slash : String → List String
split_slash String.[] = "" ∷ []
split_slash (String.◌∷◌ c s) =
    let rest = split_slash s in if is_slash c then "" ∷ rest else onto_first c rest

-- the last part that is neither empty nor ".", or what was seen before
unfoldable pub last_part : String → List String → String
last_part seen [] = seen
last_part seen (part ∷ parts) =
    last_part (if str_eq part "" then seen else if str_eq part "." then seen else part) parts

-- `Path(s).name`
unfoldable pub name_of : String → String
unfolding split_slash last_part
name_of s = last_part "" (split_slash s)

-- the last dot of the rest, or the one here
unfoldable pub dot_here_or : Char → String → Option String → Option String
dot_here_or c s (some t) = some t
dot_here_or c s none = if is_dot c then some (String.◌∷◌ c s) else none

-- a text from its last dot on
unfoldable pub last_dot : String → Option String
unfolding dot_here_or
last_dot String.[] = none
last_dot (String.◌∷◌ c s) = dot_here_or c s (last_dot s)

-- `name[i:] if 0 < i < len(name) - 1 else ""`, where the dot is searched after the first character
unfoldable pub suffix_from : Option String → String
suffix_from none = ""
suffix_from (some t) = if str_eq t "." then "" else t

unfoldable pub suffix_of_name : String → String
unfolding suffix_from last_dot
suffix_of_name String.[] = ""
suffix_of_name (String.◌∷◌ c s) = suffix_from (last_dot s)

-- `Path(s).suffix`
unfoldable pub suffix : String → String
unfolding suffix_of_name name_of
suffix s = suffix_of_name (name_of s)
