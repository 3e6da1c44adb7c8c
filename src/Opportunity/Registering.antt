-- ===== src/Opportunity/Registering.antt =====
-- `create_registration`: when a student is registered, and what is written.
use campus_hr_b.Prelude.{
  ℕ, ◌≡◌, refl, ap, ◌⊎◌, inl, inr, Option, none, some, String, List, [], ◌∷◌, ◌++◌, arith, ◌==◌,
  Bool, true, false, if◌then◌else◌, Bool-cases, Option-cases,
}
use campus_hr_b.Json.{Json, ℤ, obj, end}
use campus_hr_b.Common.Enums.{CurrentUser, UserRole, student, coordinator}
use campus_hr_b.Http.{HttpClient, Settings, Reply, failed, reply}
use campus_hr_b.Session.{
  Server, Session, Result, ok, err, Error, http_exception, client_error, data_error, Refused,
}
use campus_hr_b.Table.{first, filter}
use campus_hr_b.Opportunity.Model.{
  registration_fits, Opportunity, Registration, RegistrationCreate, Db, World, EligibilityRule,
  Stamp, has_id, registered_by, rule_of,
}
use campus_hr_b.Opportunity.Eligibility.{check_eligibility}
use campus_hr_b.Opportunity.Service.{
  register_student, get_opportunity, fetch_profile, profile_of, profile_url, new_registration,
  add_registration,
}
use campus_hr_b.Opportunity.Api.{create_registration}

-- the profile that a reply of the identity service stands for, where it stands for one
abbrev pub served : Reply → Option Json
served failed = none
served (reply status body) = if status == 200 then body else some (obj end)

profile_of_cases :
    (r : Reply) (s : Session Db World)
    → ((profile : Json) × (served r ≡ some profile) × (profile_of r s ≡ (ok profile, s)))
      ⊎ (profile_of r s ≡ (err client_error, s))
unfolding profile_of
profile_of_cases failed s = inr refl
profile_of_cases (reply status none) s = elim (Bool-cases (status == 200)) [
  | inl good ↦ inr (rw good)
  | inr bad ↦ inl (obj end, rw bad, rw bad)
]
profile_of_cases (reply status (some body)) s = elim (Bool-cases (status == 200)) [
  | inl good ↦ inl (body, rw good, rw good)
  | inr bad ↦ inl (obj end, rw bad, rw bad)
]

served_profile :
    (r : Reply) (profile : Json) (s : Session Db World)
    → served r ≡ some profile
    → profile_of r s ≡ (ok profile, s)
unfolding profile_of
served_profile failed profile s h = cc
served_profile (reply status none) profile s h = ground arith
served_profile (reply status (some body)) profile s h = ground arith

refusal_by :
    {r : Result Registration × Server Db World} {x : Error} {s : Server Db World}
    → r ≡ (err x, s)
    → Refused r s
refusal_by {r} {x} {s} h = ((x, ap (λ p. p.0) h), ap (λ p. p.1) h)

module _ (http_get : HttpClient) (settings : Settings) (parse_float : String → Option ℤ)
    (row : Stamp) (opportunity_id : ℕ) (request : RegistrationCreate) (user : CurrentUser)
    (s : Server Db World) where
  abbrev pub registration_answer : Result Registration × Server Db World
  registration_answer =
      create_registration http_get settings parse_float row opportunity_id request user s

  abbrev pub registered_db : Registration → Db
  registered_db reg = record s.db { registrations = s.db.registrations ++ reg ∷ [] }

  abbrev pub registers : Result Registration × Server Db World
  registers =
      let reg = new_registration row opportunity_id user.id request in
      (ok reg, record s { db = registered_db reg })

  abbrev session : Session Db World
  session = record { saved = s.db; work = s.db; world = s.world }

  abbrev pub rules_of : Opportunity → List EligibilityRule
  rules_of opp = filter (rule_of opp.id) s.db.eligibility_rules

  abbrev pub Registers : Type 0
  Registers =
      (opp : Opportunity) × (profile : Json) × (user.role ≡ student)
      × (first (has_id opportunity_id) s.db.opportunities ≡ some opp)
      × (served (http_get (profile_url settings user.id)) ≡ some profile)
      × (check_eligibility parse_float profile (rules_of opp) ≡ ok true)
      × (first (registered_by opportunity_id user.id) s.db.registrations ≡ none)
      × (registration_fits request ≡ true)
      × (registration_answer ≡ registers)

  -- the opportunity is there, the profile is served and its rules are met
  pub new_case :
      {opp : Opportunity} {profile : Json}
      → user.role ≡ student
      → first (has_id opportunity_id) s.db.opportunities ≡ some opp
      → served (http_get (profile_url settings user.id)) ≡ some profile
      → check_eligibility parse_float profile (rules_of opp) ≡ ok true
      → first (registered_by opportunity_id user.id) s.db.registrations ≡ none
      → registration_fits request ≡ true
      → registration_answer ≡ registers
  unfolding create_registration register_student get_opportunity fetch_profile add_registration
  new_case {opp} {profile} r e p good new short =
      rw
        (
          r,
          e,
          served_profile (http_get (profile_url settings user.id)) profile session p,
          good,
          new,
          short,
        )
        refl

  -- the database refuses a resume_url or answers that its columns do not take
  long_case :
      {opp : Opportunity} {profile : Json}
      → user.role ≡ student
      → first (has_id opportunity_id) s.db.opportunities ≡ some opp
      → served (http_get (profile_url settings user.id)) ≡ some profile
      → check_eligibility parse_float profile (rules_of opp) ≡ ok true
      → first (registered_by opportunity_id user.id) s.db.registrations ≡ none
      → registration_fits request ≡ false
      → registration_answer ≡ (err data_error, s)
  unfolding create_registration register_student get_opportunity fetch_profile add_registration
  long_case {opp} {profile} r e p good new long =
      rw
        (
          r,
          e,
          served_profile (http_get (profile_url settings user.id)) profile session p,
          good,
          new,
          long,
        )
        refl

  -- the profile is served and fails a rule
  pub unfit_case :
      {opp : Opportunity} {profile : Json}
      → user.role ≡ student
      → first (has_id opportunity_id) s.db.opportunities ≡ some opp
      → served (http_get (profile_url settings user.id)) ≡ some profile
      → check_eligibility parse_float profile (rules_of opp) ≡ ok false
      → registration_answer ≡ (err (http_exception 400 "Not eligible for this opportunity"), s)
  unfolding create_registration register_student get_opportunity fetch_profile
  unfit_case {opp} {profile} r e p bad =
      rw (r, e, served_profile (http_get (profile_url settings user.id)) profile session p, bad)
        refl

  -- the rules raise on what the coordinator or the student wrote
  broken_case :
      {opp : Opportunity} {profile : Json} {x : Error}
      → user.role ≡ student
      → first (has_id opportunity_id) s.db.opportunities ≡ some opp
      → served (http_get (profile_url settings user.id)) ≡ some profile
      → check_eligibility parse_float profile (rules_of opp) ≡ err x
      → registration_answer ≡ (err x, s)
  unfolding create_registration register_student get_opportunity fetch_profile
  broken_case {opp} {profile} r e p bad =
      rw (r, e, served_profile (http_get (profile_url settings user.id)) profile session p, bad)
        refl

  -- the profile meets the rules of an opportunity that the student is registered for
  again_case :
      {opp : Opportunity} {profile : Json} {old : Registration}
      → user.role ≡ student
      → first (has_id opportunity_id) s.db.opportunities ≡ some opp
      → served (http_get (profile_url settings user.id)) ≡ some profile
      → check_eligibility parse_float profile (rules_of opp) ≡ ok true
      → first (registered_by opportunity_id user.id) s.db.registrations ≡ some old
      → registration_answer ≡ (err (http_exception 400 "Already registered"), s)
  unfolding create_registration register_student get_opportunity fetch_profile
  again_case {opp} {profile} r e p good again =
      rw
        (
          r,
          e,
          served_profile (http_get (profile_url settings user.id)) profile session p,
          good,
          again,
        )
        refl

  checked_case :
      {opp : Opportunity} {profile : Json}
      → user.role ≡ student
      → first (has_id opportunity_id) s.db.opportunities ≡ some opp
      → served (http_get (profile_url settings user.id)) ≡ some profile
      → (c : Result Bool) → check_eligibility parse_float profile (rules_of opp) ≡ c
      → Refused registration_answer s ⊎ Registers
  checked_case r e p (err x) c = inl (refusal_by (broken_case r e p c))
  checked_case r e p (ok false) c = inl (refusal_by (unfit_case r e p c))
  checked_case {opp} {profile} r e p (ok true) c =
      elim (Option-cases (first (registered_by opportunity_id user.id) s.db.registrations)) [
        | inl new ↦ elim (Bool-cases (registration_fits request)) [
          | inl short ↦ inr (opp, profile, r, e, p, c, new, short, new_case r e p c new short)
          | inr long ↦ inl (refusal_by (long_case r e p c new long))
        ]
        | inr (old, again) ↦ inl (refusal_by (again_case r e p c again))
      ]

  found_case :
      {opp : Opportunity}
      → user.role ≡ student
      → first (has_id opportunity_id) s.db.opportunities ≡ some opp
      → Refused registration_answer s ⊎ Registers
  unfolding create_registration register_student get_opportunity fetch_profile
  found_case {opp} r e = elim (profile_of_cases (http_get (profile_url settings user.id)) session) [
    | inr bad ↦ inl (rw (r, e, bad) ((client_error, refl), refl))
    | inl (profile, p, got) ↦
        checked_case r e p (check_eligibility parse_float profile (rules_of opp)) refl
  ]

  -- The route refuses and changes nothing, or a student is registered for the first time.
  pub create_registration_cases : Refused registration_answer s ⊎ Registers
  unfolding create_registration register_student get_opportunity
  create_registration_cases = role_case user.role refl
    where
      role_case : (r : UserRole) → user.role ≡ r → Refused registration_answer s ⊎ Registers
      role_case coordinator r = inl (rw r ((http_exception 403 "Student only", refl), refl))
      role_case student r = elim (Option-cases (first (has_id opportunity_id) s.db.opportunities)) [
        | inl e ↦ inl (rw (r, e) ((http_exception 404 "Opportunity not found", refl), refl))
        | inr (opp, e) ↦ found_case r e
      ]
