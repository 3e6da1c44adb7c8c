-- ===== src/Opportunity/Lasting.antt =====
-- A registration uses up the student's chance, whatever is served after it: `create_registration`
-- among later requests and runs.
use campus_hr_b.Prelude.{ℕ, ◌≤◌, ◌≡◌, ap, inl, inr, String, Option, arith, [], ◌∷◌, ◌++◌}
use mathlib.Core.Path.{subst}
use campus_hr_b.Json.{ℤ}
use campus_hr_b.Common.Enums.{CurrentUser}
use campus_hr_b.Http.{HttpClient, Settings}
use campus_hr_b.Session.{Server, ok, Refused}
use campus_hr_b.Table.Count.{count, count-append_one, count_zero_of_missing}
use campus_hr_b.Opportunity.Model.{
  Registration, RegistrationCreate, Db, World, Stamp, registered_by,
}
use campus_hr_b.Opportunity.Service.{new_registration}
use campus_hr_b.Opportunity.Api.{create_registration}
use campus_hr_b.Opportunity.Creating.{create_opp_cases}
use campus_hr_b.Opportunity.Ownership.{patch_opp_cases}
use campus_hr_b.Opportunity.Registering.{create_registration_cases}
use campus_hr_b.Opportunity.Deadlines.{run_deadlines_closes}
use campus_hr_b.Opportunity.Admission.{create_registration_success}
use campus_hr_b.Opportunity.Requests.{
  IsValid, Step, Serves, creates, patches, registers, runs, here, next, Serves-IsValid,
}

-- the student is registered for the opportunity
abbrev Registered : ℕ → ℕ → Db → Type 0
Registered o u db = 1 ≤ count (registered_by o u) db.registrations

Step-Registered :
    (o u : ℕ) {s t : Server Db World}
    → IsValid s.db
    → Step s t
    → Registered o u s.db
    → Registered o u t.db
Step-Registered o u {s} valid (creates row f g request user fresh) h =
    elim (create_opp_cases row f g request user s) [
      | inl refused ↦ rw refused.1 h
      | inr (_, _, made) ↦ rw made h
    ]
Step-Registered o u {s} valid (patches k request user) h = elim (patch_opp_cases k request user s) [
  | inl refused ↦ rw refused.1 h
  | inr (_, _, _, _, _, _, made) ↦ rw made h
]
Step-Registered o u {s} valid (registers http_get settings parse_float row k request user) h =
    elim (create_registration_cases http_get settings parse_float row k request user s) [
      | inl refused ↦ rw refused.1 h
      | inr (_, _, _, _, _, _, _, _, made) ↦ rw made (
          omega (
            arith,
            h,
            count-append_one (registered_by o u) s.db.registrations
                (new_registration row k user.id request),
          ))
    ]
Step-Registered o u {s} valid (runs office now) h = rw (run_deadlines_closes office now s valid.0) h

Serves-Registered :
    (o u : ℕ) {s t : Server Db World}
    → IsValid s.db
    → Serves s t
    → Registered o u s.db
    → Registered o u t.db
Serves-Registered o u valid here h = h
Serves-Registered o u valid (next steps step) h =
    Step-Registered o u (Serves-IsValid valid steps) step (Serves-Registered o u valid steps h)

-- who is registered is refused
turned_away :
    (http_get : HttpClient) (settings : Settings) (parse_float : String → Option ℤ) (row : Stamp)
    (o : ℕ) (request : RegistrationCreate) (user : CurrentUser) (s : Server Db World)
    → Registered o user.id s.db
    → Refused (create_registration http_get settings parse_float row o request user s) s
turned_away http_get settings parse_float row o request user s h =
    elim (create_registration_cases http_get settings parse_float row o request user s) [
      | inl refused ↦ refused
      | inr (_, _, _, _, _, _, new, _, _) ↦
          absurd (omega (arith, h, count_zero_of_missing _ s.db.registrations new))
    ]

-- From a well-formed opportunity_db: after a registration that is answered with success, whatever
-- requests of anybody and runs of the scheduler are served after it, each further request of the
-- same student for the same opportunity is refused and changes nothing.
pub create_registration_once :
    (http_get : HttpClient) (settings : Settings) (parse_float : String → Option ℤ) (row : Stamp)
    (opportunity_id : ℕ) (request : RegistrationCreate) (user : CurrentUser)
    (s t u : Server Db World) (reg : Registration)
    → IsValid s.db
    → create_registration http_get settings parse_float row opportunity_id request user s
      ≡ (ok reg, t)
    → Serves t u
    → (http_get' : HttpClient) (settings' : Settings) (parse_float' : String → Option ℤ)
      (row' : Stamp) (request' : RegistrationCreate)
    → Refused
        (create_registration http_get' settings' parse_float' row' opportunity_id request' user u)
        u
create_registration_once http_get settings parse_float row opportunity_id request user s t u reg
      valid done later http_get' settings' parse_float' row' request' =
    let (_, _, _, student_eq, opp_eq, db_eq) =
      create_registration_success http_get settings parse_float row opportunity_id request user s
        reg t done in
    let rows : t.db.registrations ≡ s.db.registrations ++ reg ∷ [] =
      ap (λ d. d.registrations) db_eq in
    let there : Registered opportunity_id user.id t.db = taken reg student_eq opp_eq rows in
    let t_valid : IsValid t.db = well_formed done in
    turned_away http_get' settings' parse_float' row' opportunity_id request' user u
      (Serves-Registered opportunity_id user.id t_valid later there)
  where
    taken :
        (reg : Registration)
        → reg.student_id ≡ user.id
        → reg.opportunity_id ≡ opportunity_id
        → t.db.registrations ≡ s.db.registrations ++ reg ∷ []
        → Registered opportunity_id user.id t.db
    taken reg e e' rows = rw rows (
        ground
          (arith, count-append_one (registered_by opportunity_id user.id) s.db.registrations reg))

    well_formed :
        create_registration http_get settings parse_float row opportunity_id request user s
          ≡ (ok reg, t)
        → IsValid t.db
    well_formed done = subst IsValid (ap (λ z. z.1.db) done) (
        Serves-IsValid valid
          (next here (registers http_get settings parse_float row opportunity_id request user)))
