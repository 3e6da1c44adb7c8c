-- ===== src/Json.antt =====
-- The values of the JSON columns and payloads, which the source declares as `dict`. A finite float
-- is a whole number of 2 ^ -1074 (every finite double is one), so the order of floats is exact.
use campus_hr_b.Prelude.{
  ℕ, String, Bool, true, false, Option, none, some, str_eq, ltb, if◌then◌else◌,
}
use campus_hr_b.Prelude.{◌+◌, suc, zero}

-- `negsuc n` is -(n + 1)
pub data ℤ : Type 0 where
  pos : ℕ → ℤ
  negsuc : ℕ → ℤ

abbrev pub pos_part : ℤ → ℕ
pos_part (pos n) = n
pos_part (negsuc n) = 0

abbrev pub neg_part : ℤ → ℕ
neg_part (pos n) = 0
neg_part (negsuc n) = suc n

abbrev pub ltb_ℤ : ℤ → ℤ → Bool
ltb_ℤ a b = ltb (pos_part a + neg_part b) (pos_part b + neg_part a)

mutual
  pub data Json : Type 0 where
    null : Json
    bool : Bool → Json
    num : ℤ → Json
    text : String → Json
    arr : Items → Json
    obj : Dict → Json

  pub data Items : Type 0 where
    nil : Items
    cons : Json → Items → Items

  -- a dict of Python, in insertion order
  pub data Dict : Type 0 where
    end : Dict
    entry : String → Json → Dict → Dict

-- `d.get(k)`
unfoldable pub get : String → Dict → Option Json
get k end = none
get k (entry j v d) = if str_eq j k then some v else get k d

-- a text is an item of the list
unfoldable pub has_text : String → Items → Bool
has_text s nil = false
has_text s (cons (text t) xs) = if str_eq t s then true else has_text s xs
has_text s (cons _ xs) = has_text s xs

-- the truth of a value of Python
unfoldable pub truthy : Json → Bool
truthy null = false
truthy (bool b) = b
truthy (num (pos zero)) = false
truthy (num _) = true
truthy (text s) = if str_eq s "" then false else true
truthy (arr nil) = false
truthy (arr _) = true
truthy (obj end) = false
truthy (obj _) = true
