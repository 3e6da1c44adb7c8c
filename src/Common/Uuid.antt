-- ===== src/Common/Uuid.antt =====
-- `uuid.UUID` as the services use it: a number below 2 ^ 128, written by `str` as 32 hexadecimal
-- digits in groups of 8, 4, 4, 4 and 12, and read by `UUID`. The other spellings that `UUID` takes
-- (braces, `urn:`) come from no service, and count as no UUID here.
pub mod RoundTrip
use Prim.Native.Char.{Char, code}
use Prim.Native.String
use campus_hr_b.Prelude.{
  ℕ, zero, suc, ◌+◌, ◌*◌, ◌/◌, ◌%◌, ◌-◌, ◌^◌, ◌<◌, String, ◌≡◌, ◌≢◌, refl, Bool, true, false, ◌&&◌,
  Option, none, some, arith, ◌==◌, leb, ltb, if◌then◌else◌, ◌∙◌,
}

unfoldable pub digit : ℕ → Char
digit d =
    if d == 0
    then "0"
    else if d == 1
    then "1"
    else if d == 2
    then "2"
    else if d == 3
    then "3"
    else if d == 4
    then "4"
    else if d == 5
    then "5"
    else if d == 6
    then "6"
    else if d == 7
    then "7"
    else if d == 8
    then "8"
    else if d == 9
    then "9"
    else if d == 10
    then "a"
    else if d == 11
    then "b"
    else if d == 12
    then "c"
    else if d == 13
    then "d"
    else if d == 14
    then "e"
    else "f"

unfoldable pub digit_value : ℕ → Option ℕ
digit_value c =
    if leb b'0' c && leb c b'9'
    then some (c - 48)
    else if leb b'a' c && leb c b'f'
    then some (c - 87)
    else if leb b'A' c && leb c b'F'
    then some (c - 55)
    else none

-- the last `k` digits of `n`, before a rest
unfoldable pub hex_onto : ℕ → ℕ → String → String
hex_onto zero n rest = rest
hex_onto (suc k) n rest = hex_onto k (n / 16) (String.◌∷◌ (digit (n % 16)) rest)

unfoldable pub dash : String → String
dash rest = String.◌∷◌ "-" rest

-- `str(u)`
unfoldable pub to_text : ℕ → String
to_text n = hex_onto 8 (n / 2 ^ 96) (
    dash (
      hex_onto 4 (n / 2 ^ 80 % 2 ^ 16) (
        dash (
          hex_onto 4 (n / 2 ^ 64 % 2 ^ 16)
            (dash (hex_onto 4 (n / 2 ^ 48 % 2 ^ 16) (dash (hex_onto 12 (n % 2 ^ 48) ""))))))))

-- `left` digits are still to come, and `acc` is the number so far
unfoldable pub read : ℕ → ℕ → String → Option ℕ
read zero acc String.[] = some acc
read (suc left) acc String.[] = none
read left acc (String.◌∷◌ c s) = elim (code c == b'-') [
  | true ↦ read left acc s
  | false ↦ elim (digit_value (code c)) [
    | none ↦ none
    | some d ↦ elim left [ zero ↦ none | suc fewer ↦ read fewer (acc * 16 + d) s ]
  ]
]

-- `UUID(s)`, where `none` is its ValueError
unfoldable pub of_text : String → Option ℕ
of_text s = read 32 0 s
