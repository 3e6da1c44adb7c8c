-- ===== src/Common/Uuid/RoundTrip.antt =====
-- What `str` writes of a UUID, `UUID` reads back.
use Prim.Native.Char.{code}
use campus_hr_b.Prelude.{
  ℕ, zero, suc, ◌+◌, ◌*◌, ◌/◌, ◌%◌, ◌^◌, ◌<◌, String, ◌≡◌, refl, Bool, true, false, some, none,
  ◌&&◌, not, arith, ◌==◌, ◌∙◌, ap,
}
use campus_hr_b.Common.Uuid.{digit, digit_value, hex_onto, dash, read, to_text, of_text}

-- the number with `k` hexadecimal zeros after it
abbrev shift : ℕ → ℕ → ℕ
shift zero n = n
shift (suc k) n = 16 * shift k n

-- the test holds of every number below the bound
unfoldable pub holds_below : ℕ → (ℕ → Bool) → Bool
holds_below zero p = true
holds_below (suc n) p = p n && holds_below n p

pub holds_at : (n : ℕ) (p : ℕ → Bool) (x : ℕ) → holds_below n p ≡ true → x < n → p x ≡ true
unfolding holds_below
holds_at zero p x h lt = absurd (omega arith)
holds_at (suc n) p x h lt = ground (arith, holds_at n p x)

digit_is_read : ℕ → Bool
digit_is_read d = elim (digit_value (code (digit d))) [
  | none ↦ false
  | some e ↦ e == d && not (code (digit d) == b'-')
]

digit_table : holds_below 16 digit_is_read ≡ true
unfolding holds_below digit_is_read digit digit_value
digit_table = refl

-- one digit is written as a character that is no dash and is read as the same digit
digit_read :
    (d : ℕ)
    → digit_is_read d ≡ true
    → (digit_value (code (digit d)) ≡ some d) × ((code (digit d) == b'-') ≡ false)
unfolding digit_is_read
digit_read d h = ground arith

read-dash : (left acc : ℕ) (s : String) → read left acc (dash s) ≡ read left acc s
unfolding read dash
read-dash zero acc s = refl
read-dash (suc left) acc s = refl

read-digit :
    (left acc d : ℕ) (s : String)
    → d < 16
    → read (suc left) acc (String.◌∷◌ (digit d) s) ≡ read left (acc * 16 + d) s
unfolding read
read-digit left acc d s h =
    let (value, plain) = digit_read d (holds_at 16 digit_is_read d digit_table h) in ground arith

read-hex_onto :
    (k left n acc : ℕ) (s : String)
    → n < shift k 1
    → read (k + left) acc (hex_onto k n s) ≡ read left (shift k acc + n) s
unfolding hex_onto
read-hex_onto zero left n acc s h = ground arith
read-hex_onto (suc k) left n acc s h =
    let e : suc k + left ≡ k + suc left = omega arith in
    rw e (
      read-hex_onto k (suc left) (n / 16) acc (String.◌∷◌ (digit (n % 16)) s) (omega arith)
      ∙ read-digit left (shift k acc + n / 16) (n % 16) s (omega arith)
      ∙ ap (λ a. read left a s) (omega arith))

all_read : {m n : ℕ} → m ≡ n → read 0 m "" ≡ some n
unfolding read
all_read e = ap some e

-- Reading back the text of a UUID gives the UUID.
pub of_text-to_text : (n : ℕ) → n < 2 ^ 128 → of_text (to_text n) ≡ some n
unfolding of_text to_text
of_text-to_text n h =
    read-hex_onto 8 24 (n / 2 ^ 96) 0 _ (omega arith)
    ∙ read-dash 24 _ _
    ∙ read-hex_onto 4 20 (n / 2 ^ 80 % 2 ^ 16) _ _ (omega arith)
    ∙ read-dash 20 _ _
    ∙ read-hex_onto 4 16 (n / 2 ^ 64 % 2 ^ 16) _ _ (omega arith)
    ∙ read-dash 16 _ _
    ∙ read-hex_onto 4 12 (n / 2 ^ 48 % 2 ^ 16) _ _ (omega arith)
    ∙ read-dash 12 _ _
    ∙ read-hex_onto 12 0 (n % 2 ^ 48) _ "" (omega arith)
    ∙ all_read (omega arith)
