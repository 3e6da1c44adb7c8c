-- ===== src/Common/Bearer.antt =====
-- `authorization.startswith("Bearer ")` and `removeprefix("Bearer ").strip()`, as auth_service.py
-- and auth_deps.py read the Authorization header.
use Prim.Native.Char.{Char, code}
use Prim.Native.String.{slice, len}
use text.Mathlib.Text.{starts_with}
use campus_hr_b.Prelude.{
  String, Bool, ◌&&◌, ◌||◌, Option, none, some, ◌==◌, leb, str_eq, if◌then◌else◌,
}

-- what `str.strip` takes for white space in a header, whose characters are Latin-1
unfoldable pub is_space : Char → Bool
is_space c =
    leb 9 (code c) && leb (code c) 13
    || leb 28 (code c) && leb (code c) 32
    || code c == 133
    || code c == 160

unfoldable pub lstrip : String → String
unfolding is_space
lstrip String.[] = ""
lstrip (String.◌∷◌ c s) = let rest = lstrip s in if is_space c then rest else String.◌∷◌ c s

unfoldable pub rstrip : String → String
unfolding is_space
rstrip String.[] = ""
rstrip (String.◌∷◌ c s) =
    let rest = rstrip s in if is_space c && str_eq rest "" then "" else String.◌∷◌ c rest

-- the token of a header that begins with "Bearer "
unfoldable pub bearer : Option String → Option String
unfolding lstrip rstrip
bearer none = none
bearer (some authorization) =
    if starts_with authorization "Bearer "
    then some (rstrip (lstrip (slice authorization 7 (len authorization))))
    else none
