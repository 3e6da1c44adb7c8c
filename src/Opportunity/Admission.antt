-- ===== src/Opportunity/Admission.antt =====
-- What the registration of a student promises: who is admitted, and how often.
use campus_hr_b.Prelude.{
  ℕ, ◌≡◌, ◌≢◌, refl, ap, sym, ◌∙◌, inl, inr, Option, none, some, String, List, [], ◌∷◌, ◌++◌, true,
  map, arith, if◌then◌else◌, Bool-cases,
}
use campus_hr_b.Json.{Json, ℤ, obj, end}
use campus_hr_b.Common.Enums.{CurrentUser, student}
use campus_hr_b.Http.{HttpClient, Settings, reply}
use campus_hr_b.Session.{Server, ok, err, http_exception}
use campus_hr_b.Table.{first}
use campus_hr_b.Table.Count.{count, count_zero_of_missing}
use campus_hr_b.Opportunity.Model.{
  registration_fits, Opportunity, Registration, RegistrationCreate, Db, World, Stamp, has_id,
  registered_by,
}
use campus_hr_b.Opportunity.Eligibility.{check_eligibility}
use campus_hr_b.Opportunity.Rules.{
  Profile, Rule, profile_json, stored, meets_all, check_eligibility_decides,
  check_eligibility_empty,
}
use campus_hr_b.Opportunity.Service.{profile_url, new_registration}
use campus_hr_b.Opportunity.Api.{create_registration}
use campus_hr_b.Opportunity.Registering.{
  served, registers, rules_of, new_case, unfit_case, create_registration_cases,
}

module _ (http_get : HttpClient) (settings : Settings) (parse_float : String → Option ℤ)
    (row : Stamp) (opportunity_id : ℕ) (request : RegistrationCreate) (user : CurrentUser)
    (s : Server Db World) where
  -- A student who is not registered yet asks for an opportunity that is there, and the identity
  -- service serves the profile. Where the stored rules name a least CGPA, a list of branches, both
  -- or neither, and the columns take the resume_url and the answers, the student is registered if
  -- the profile meets all of them, and is otherwise refused with nothing changed.
  pub create_registration_decides :
      (opp : Opportunity) (p : Profile) (rules : List (ℕ × Rule))
      → user.role ≡ student
      → first (has_id opportunity_id) s.db.opportunities ≡ some opp
      → http_get (profile_url settings user.id) ≡ reply 200 (some (profile_json p))
      → rules_of http_get settings parse_float row opportunity_id request user s opp
        ≡ map (stored opp.id) rules
      → first (registered_by opportunity_id user.id) s.db.registrations ≡ none
      → registration_fits request ≡ true
      → create_registration http_get settings parse_float row opportunity_id request user s ≡ (
          if meets_all p rules
          then registers http_get settings parse_float row opportunity_id request user s
          else (err (http_exception 400 "Not eligible for this opportunity"), s))
  create_registration_decides opp p rules r e url stored_rules new short =
      let got : served (http_get (profile_url settings user.id)) ≡ some (profile_json p) =
        rw url refl in
      let decided =
        ap (check_eligibility parse_float (profile_json p)) stored_rules
        ∙ check_eligibility_decides parse_float p opp.id rules in
      elim (Bool-cases (meets_all p rules)) [
        | inl fit ↦ rw fit (
            new_case http_get settings parse_float row opportunity_id request user s r e got
              (decided ∙ ap ok fit) new short)
        | inr unfit ↦ rw unfit (
            unfit_case http_get settings parse_float row opportunity_id request user s r e got
              (decided ∙ ap ok unfit))
      ]

  -- Where the identity service answers the request for the profile with any other status than 200,
  -- the rules of the opportunity are not applied: a student who is not registered yet, with a
  -- resume_url and answers that the columns take, is registered, whatever the rules ask.
  pub create_registration_fails_open :
      (opp : Opportunity) (status : ℕ) (body : Option Json)
      → user.role ≡ student
      → first (has_id opportunity_id) s.db.opportunities ≡ some opp
      → http_get (profile_url settings user.id) ≡ reply status body
      → status ≢ 200
      → first (registered_by opportunity_id user.id) s.db.registrations ≡ none
      → registration_fits request ≡ true
      → create_registration http_get settings parse_float row opportunity_id request user s
        ≡ registers http_get settings parse_float row opportunity_id request user s
  create_registration_fails_open opp status body r e url bad new short =
      let got : served (http_get (profile_url settings user.id)) ≡ some (obj end) =
        rw url (ground arith) in
      new_case http_get settings parse_float row opportunity_id request user s r e got
        (check_eligibility_empty parse_float _) new short

  -- A registration that is answered with success is of a student, for an opportunity that is there,
  -- and the first of that student for it. The database has gained exactly the row that is answered.
  pub create_registration_success :
      (reg : Registration) (t : Server Db World)
      → create_registration http_get settings parse_float row opportunity_id request user s
        ≡ (ok reg, t)
      → (user.role ≡ student)
        × (count (registered_by opportunity_id user.id) s.db.registrations ≡ 0)
        × ((opp : Opportunity) × (first (has_id opportunity_id) s.db.opportunities ≡ some opp))
        × (reg.student_id ≡ user.id)
        × (reg.opportunity_id ≡ opportunity_id)
        × (t.db ≡ record s.db { registrations = s.db.registrations ++ reg ∷ [] })
  unfolding new_registration
  create_registration_success reg t h =
      elim (create_registration_cases http_get settings parse_float row opportunity_id request user
        s) [
          | inl refused ↦ cc refused.0.1
          | inr (opp, profile, r, e, p, good, new, short, done) ↦
              let made : registers http_get settings parse_float row opportunity_id request user s
                  ≡ (ok reg, t) =
                sym done ∙ h in
              let same = value_of (ap (λ z. z.0) made) in
              (
                r,
                count_zero_of_missing _ s.db.registrations new,
                (opp, e),
                ap (λ a. a.student_id) (sym same),
                ap (λ a. a.opportunity_id) (sym same),
                ap (λ z. z.1.db) (sym made)
                    ∙ ap (λ a. record s.db { registrations = s.db.registrations ++ a ∷ [] }) same,
              )
        ]
    where
      value_of : {a b : Registration} → ok a ≡ ok b → a ≡ b
      value_of q = cc q
