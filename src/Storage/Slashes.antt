-- ===== src/Storage/Slashes.antt =====
-- The slashes of a text, which say how many parts a URL has.
use Prim.Native.String.{◌++◌ as str_append}
use text.Mathlib.TextLemmas.{cons-append, nil-append}
use campus_hr_b.Prelude.{ℕ, ◌+◌, ◌≡◌, String, arith, if◌then◌else◌}
use campus_hr_b.Storage.FilePath.{is_slash}

unfoldable pub slashes : String → ℕ
slashes String.[] = 0
slashes (String.◌∷◌ c s) = (if is_slash c then 1 else 0) + slashes s

pub slashes-append : (s t : String) → slashes (str_append s t) ≡ slashes s + slashes t
unfolding slashes
slashes-append String.[] t = rw (nil-append t) (omega arith)
slashes-append (String.◌∷◌ c s) t = rw (cons-append c s t) (omega (arith, slashes-append s t))
