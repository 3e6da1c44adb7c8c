-- ===== src/Opportunity/Rules.antt =====
-- `check_eligibility` decides the rules that coordinators write, on the profiles that the identity
-- service serves.
use campus_hr_b.Prelude.{
  ℕ, String, ◌≡◌, refl, Bool, true, false, Option, none, some, List, [], ◌∷◌, map, arith, str_eq,
  ◌&&◌, ◌||◌, not, if◌then◌else◌,
}
use campus_hr_b.Json.{
  Json, Items, Dict, ℤ, null, num, text, arr, obj, nil, cons, end, entry, get, has_text, ltb_ℤ,
}
use campus_hr_b.Session.{ok}
use campus_hr_b.Opportunity.Model.{EligibilityRule}
use campus_hr_b.Opportunity.Eligibility.{
  check_eligibility, check_rule, min_cgpa_met, branch_allowed,
}

-- `ProfileResponse` of services/identity-service/app/schemas.py, with the time as JSON writes it
pub record Profile : Type 0 where
  pub user_id : String
  pub name : Option String
  pub cgpa : Option ℤ
  pub branch : Option String
  pub year : Option ℤ
  pub phone : Option String
  pub skills : Option (List String)
  pub updated_at : Option String

pub record Rule : Type 0 where
  pub min_cgpa : Option ℤ
  pub allowed_branches : Option (List String)

abbrev num_or_null : Option ℤ → Json
num_or_null none = null
num_or_null (some z) = num z

abbrev text_or_null : Option String → Json
text_or_null none = null
text_or_null (some s) = text s

abbrev texts : List String → Items
texts [] = nil
texts (s ∷ ss) = cons (text s) (texts ss)

abbrev texts_or_null : Option (List String) → Json
texts_or_null none = null
texts_or_null (some ss) = arr (texts ss)

-- the profile as the identity service sends it
abbrev pub profile_json : Profile → Json
profile_json p = obj (
    entry "user_id" (text p.user_id) (
      entry "name" (text_or_null p.name) (
        entry "cgpa" (num_or_null p.cgpa) (
          entry "branch" (text_or_null p.branch) (
            entry "year" (num_or_null p.year) (
              entry "phone" (text_or_null p.phone) (
                entry "skills" (texts_or_null p.skills)
                  (entry "updated_at" (text_or_null p.updated_at) end))))))))

abbrev with_branches : Option (List String) → Dict
with_branches none = end
with_branches (some bs) = entry "allowed_branches" (arr (texts bs)) end

abbrev with_min : Option ℤ → Dict → Dict
with_min none d = d
with_min (some m) d = entry "min_cgpa" (num m) d

-- the rule as it is stored
abbrev pub rule_dict : Rule → Dict
rule_dict r = with_min r.min_cgpa (with_branches r.allowed_branches)

abbrev pub stored : ℕ → ℕ × Rule → EligibilityRule
stored o (i, r) = record { id = i; opportunity_id = o; rule = rule_dict r }

abbrev pub is_member : String → List String → Bool
is_member b [] = false
is_member b (s ∷ ss) = str_eq s b || is_member b ss

-- a CGPA that is known is not below the least one
abbrev pub cgpa_meets : Option ℤ → Option ℤ → Bool
cgpa_meets (some least) (some cgpa) = not (ltb_ℤ cgpa least)
cgpa_meets _ _ = true

-- a branch that is known is one of the list
abbrev pub branch_meets : Option (List String) → Option String → Bool
branch_meets (some allowed) (some branch) = str_eq branch "" || is_member branch allowed
branch_meets _ _ = true

abbrev pub meets : Profile → Rule → Bool
meets p r = cgpa_meets r.min_cgpa p.cgpa && branch_meets r.allowed_branches p.branch

abbrev pub meets_all : Profile → List (ℕ × Rule) → Bool
meets_all p [] = true
meets_all p ((_, r) ∷ rs) = meets p r && meets_all p rs

has_text-texts : (b : String) (bs : List String) → has_text b (texts bs) ≡ is_member b bs
unfolding has_text
has_text-texts b [] = refl
has_text-texts b (s ∷ bs) = ground (arith, has_text-texts b bs)

module _ (parse_float : String → Option ℤ) where
  min_empty : (o : Option Json) → min_cgpa_met parse_float (obj end) o ≡ ok true
  unfolding min_cgpa_met get
  min_empty none = refl
  min_empty (some m) = refl

  branch_empty : (o : Option Json) → branch_allowed parse_float (obj end) o ≡ ok true
  unfolding branch_allowed get
  branch_empty none = refl
  branch_empty (some allowed) = refl

  empty_met : (rule : Dict) → check_rule parse_float (obj end) rule ≡ ok true
  unfolding check_rule
  empty_met rule = rw (min_empty, branch_empty)

  rule_met :
      (q : Profile) (cgpa : Option ℤ) (branch : Option String) (least : Option ℤ)
      (allowed : Option (List String))
      → let p : Profile = record q { cgpa = cgpa; branch = branch } in
        let r : Rule = record { min_cgpa = least; allowed_branches = allowed } in
        check_rule parse_float (profile_json p) (rule_dict r) ≡ ok (meets p r)
  unfolding check_rule get
  rule_met q cgpa branch none none = refl
  rule_met q cgpa none none (some bs) = refl
  rule_met q cgpa (some b) none (some bs) = ground (arith, has_text-texts b bs)
  rule_met q none branch (some m) none = refl
  rule_met q (some c) branch (some m) none = ground arith
  rule_met q none none (some m) (some bs) = refl
  rule_met q none (some b) (some m) (some bs) = ground (arith, has_text-texts b bs)
  rule_met q (some c) none (some m) (some bs) = ground arith
  rule_met q (some c) (some b) (some m) (some bs) = ground (arith, has_text-texts b bs)

  -- On the rules that name a least CGPA, a list of branches, both or neither, in any number, the
  -- check answers exactly whether the profile meets every rule: a CGPA that is known is not below
  -- the least one, and a branch that is known is one of the list.
  pub check_eligibility_decides :
      (p : Profile) (o : ℕ) (rules : List (ℕ × Rule))
      → check_eligibility parse_float (profile_json p) (map (stored o) rules)
        ≡ ok (meets_all p rules)
  unfolding check_eligibility
  check_eligibility_decides p o [] = refl
  check_eligibility_decides p o ((i, r) ∷ rules) =
      rw
        (
          rule_met p p.cgpa p.branch r.min_cgpa r.allowed_branches,
          check_eligibility_decides p o rules,
        )
        (split (meets p r))
    where
      split :
          (b : Bool)
          → (if b then ok (meets_all p rules) else ok false) ≡ ok (b && meets_all p rules)
      split true = refl
      split false = refl

  -- An empty profile, which is what a failed request to the identity service gives, meets every
  -- rule, whatever the rule asks.
  pub check_eligibility_empty :
      (rules : List EligibilityRule) → check_eligibility parse_float (obj end) rules ≡ ok true
  unfolding check_eligibility
  check_eligibility_empty [] = refl
  check_eligibility_empty (r ∷ rules) = rw (empty_met r.rule, check_eligibility_empty rules)
