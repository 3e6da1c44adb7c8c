-- ===== src/Opportunity/Eligibility.antt =====
-- `check_eligibility` of services/opportunity-service/app/services/opportunity_service.py. The
-- profile is an answer of the identity service: its `cgpa` is a float or null, and its `branch` a
-- text or null; anything else there counts as a TypeError. A rule may be any JSON object.
use package.text.Mathlib.Text.{starts_with}
use campus_hr_b.Prelude.{
  ◌^◌, String, Bool, true, false, Option, none, some, List, [], ◌∷◌, str_eq, ◌||◌, is_some, not,
  if◌then◌else◌,
}
use campus_hr_b.Json.{Json, Dict, ℤ, null, bool, num, text, arr, obj, get, has_text, pos, ltb_ℤ}
use campus_hr_b.Session.{Result, ok, err, value_error, type_error}
use campus_hr_b.Results.{◌>>=◌}
use campus_hr_b.Opportunity.Model.{EligibilityRule}

-- `t in s` on two texts
has_substring : String → String → Bool
has_substring t String.[] = str_eq t ""
has_substring t (String.◌∷◌ c s) = starts_with (String.◌∷◌ c s) t || has_substring t s

-- `branch in allowed`
unfoldable pub allows : Json → String → Result Bool
unfolding has_substring
allows (arr items) branch = ok (has_text branch items)
allows (text s) branch = ok (has_substring branch s)
allows (obj d) branch = ok (is_some (get branch d))
allows _ branch = err type_error

-- `profile.get(k)`
profile_get : String → Json → Result (Option Json)
profile_get k (obj d) = ok (get k d)
profile_get k _ = err type_error

cgpa_value : Option Json → Result (Option ℤ)
cgpa_value none = ok none
cgpa_value (some null) = ok none
cgpa_value (some (num z)) = ok (some z)
cgpa_value (some _) = err type_error

branch_value : Option Json → Result (Option String)
branch_value none = ok none
branch_value (some null) = ok none
branch_value (some (text s)) = ok (if str_eq s "" then none else some s)
branch_value (some _) = err type_error

-- the branch, if the profile has one, against the value of the rule
admits : Option String → Json → Result Bool
unfolding allows
admits none allowed = ok true
admits (some branch) allowed = allows allowed branch

-- `parse_float` reads a float from a text, or is none where `float` raises a ValueError
module _ (parse_float : String → Option ℤ) where
  -- `float(j)`
  float_of : Json → Result ℤ
  float_of (num z) = ok z
  float_of (bool true) = ok (pos (2 ^ 1074))
  float_of (bool false) = ok (pos 0)
  float_of (text s) = parsed (parse_float s)
    where
      parsed : Option ℤ → Result ℤ
      parsed none = err (value_error "could not convert string to float")
      parsed (some z) = ok z
  float_of _ = err type_error

  -- the CGPA, if the profile has one, against the value of the rule
  reaches : Option ℤ → Json → Result Bool
  unfolding float_of
  reaches none m = ok true
  reaches (some z) m = do least ← float_of m; ok (not (ltb_ℤ z least))

  -- `"min_cgpa" in rule and ...`
  unfoldable pub min_cgpa_met : Json → Option Json → Result Bool
  unfolding reaches profile_get cgpa_value
  min_cgpa_met profile none = ok true
  min_cgpa_met profile (some m) = do
    found ← profile_get "cgpa" profile
    cgpa ← cgpa_value found
    reaches cgpa m

  -- `"allowed_branches" in rule and ...`
  unfoldable pub branch_allowed : Json → Option Json → Result Bool
  unfolding admits profile_get branch_value
  branch_allowed profile none = ok true
  branch_allowed profile (some allowed) = do
    found ← profile_get "branch" profile
    branch ← branch_value found
    admits branch allowed

  unfoldable pub check_rule : Json → Dict → Result Bool
  unfolding min_cgpa_met branch_allowed
  check_rule profile rule = do
    met ← min_cgpa_met profile (get "min_cgpa" rule)
    if met then branch_allowed profile (get "allowed_branches" rule) else ok false

  unfoldable pub check_eligibility : Json → List EligibilityRule → Result Bool
  unfolding check_rule
  check_eligibility profile [] = ok true
  check_eligibility profile (rule_obj ∷ rules) =
      let rest = check_eligibility profile rules in
      do good ← check_rule profile rule_obj.rule; if good then rest else ok false
