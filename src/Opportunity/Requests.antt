-- ===== src/Opportunity/Requests.antt =====
-- Every sequence of requests and of the scheduler's runs keeps opportunity_db well formed.
use campus_hr_b.Prelude.{
  ℕ, ◌+◌, ◌≡◌, ◌≤◌, refl, ap, sym, Bool-cases, inl, inr, Option, String, List, [], ◌∷◌, ◌++◌, arith,
}
use mathlib.Core.Path.{subst}
use native.Mathlib.Decide.{ℕ_discrete}
use campus_hr_b.Json.{ℤ}
use campus_hr_b.Common.Enums.{CurrentUser}
use campus_hr_b.Http.{HttpClient, Settings}
use campus_hr_b.Session.{Server}
use campus_hr_b.Table.Count.{
  to_nat, count, count-append_one, count-append_fresh, count_zero_of_missing,
}
use campus_hr_b.Table.Rows.{count-update_where_same}
use campus_hr_b.Opportunity.Model.{
  is_due, Opportunity, OpportunityCreate, OpportunityUpdate, Registration, RegistrationCreate, Db,
  World, Stamp, has_id, registered_by,
}
use campus_hr_b.Opportunity.Service.{Office, new_opportunity, new_registration}
use campus_hr_b.Opportunity.Api.{create_opp, patch_opp, create_registration, run_deadlines}
use campus_hr_b.Opportunity.Ownership.{patch_opp_cases, updated_fields}
use campus_hr_b.Opportunity.Creating.{create_opp_cases}
use campus_hr_b.Opportunity.Registering.{create_registration_cases}
use campus_hr_b.Opportunity.Deadlines.{run_deadlines_closes, closed_until, exports}

-- keys are unique, and no student is registered twice for one opportunity
abbrev pub IsValid : Db → Type 0
IsValid db =
    ((k : ℕ) → count (has_id k) db.opportunities ≤ 1)
    × ((o u : ℕ) → count (registered_by o u) db.registrations ≤ 1)

abbrev Rows : Type 0
Rows = List Registration

-- the first row of a pair of keys keeps every pair unique
registered_once :
    (regs : Rows) (reg : Registration)
    → count (registered_by reg.opportunity_id reg.student_id) regs ≡ 0
    → (o u : ℕ) → count (registered_by o u) regs ≤ 1
    → count (registered_by o u) (regs ++ reg ∷ []) ≤ 1
registered_once regs reg fresh o u h = elim (ℕ_discrete o reg.opportunity_id) [
  | no other ↦ ground (arith, count-append_one (registered_by o u) regs reg)
  | yes same ↦ elim (ℕ_discrete u reg.student_id) [
    | no other ↦ ground (arith, count-append_one (registered_by o u) regs reg)
    | yes same' ↦
        subst (λ i. count (registered_by i u) (regs ++ reg ∷ []) ≤ 1) (sym same)
          (subst (λ j. count (registered_by reg.opportunity_id j) (regs ++ reg ∷ []) ≤ 1)
            (sym same')
            (ground
              (arith, count-append_one (registered_by reg.opportunity_id reg.student_id) regs reg)))
  ]
]

count-closed :
    (office : Office) (regs : Rows) (now k : ℕ) (opps : List Opportunity)
    → count (has_id k) (closed_until office regs now opps) ≡ count (has_id k) opps
unfolding count
count-closed office regs now k [] = refl
count-closed office regs now k (x ∷ xs) = elim (Bool-cases (is_due now x)) [
  | inr open' ↦ rw open' (ap (λ n. to_nat (has_id k x) + n) (count-closed office regs now k xs))
  | inl due ↦ elim (Bool-cases (exports office regs x)) [
    | inl saves ↦
        rw (due, saves) (ap (λ n. to_nat (has_id k x) + n) (count-closed office regs now k xs))
    | inr fails ↦ rw (due, fails) refl
  ]
]

module _ (s : Server Db World) (valid : IsValid s.db) where
  create_opp-IsValid :
      (row : Stamp) (field_ids rule_ids : ℕ → ℕ) (request : OpportunityCreate) (user : CurrentUser)
      → count (has_id row.id) s.db.opportunities ≡ 0
      → IsValid (create_opp row field_ids rule_ids request user s).1.db
  unfolding new_opportunity
  create_opp-IsValid row field_ids rule_ids request user fresh =
      elim (create_opp_cases row field_ids rule_ids request user s) [
        | inl refused ↦ rw refused.1 valid
        | inr (_, _, done) ↦ rw done (
          λ k.
              count-append_fresh (λ opp. opp.id) s.db.opportunities
                (new_opportunity row user.id request) k fresh (valid.0 k),
          valid.1,
        )
      ]

  patch_opp-IsValid :
      (k : ℕ) (request : OpportunityUpdate) (user : CurrentUser)
      → IsValid (patch_opp k request user s).1.db
  patch_opp-IsValid k request user = elim (patch_opp_cases k request user s) [
    | inl refused ↦ rw refused.1 valid
    | inr (opp, new, _, _, _, good, done) ↦
        let same = (updated_fields request opp new good).0 in
        rw done (
          λ j.
              rw
                (count-update_where_same (has_id j) (has_id opp.id) (λ old. new) s.db.opportunities
                  (λ a e. ground (arith, same)))
                (valid.0 j),
          valid.1,
        )
  ]

  create_registration-IsValid :
      (http_get : HttpClient) (settings : Settings) (parse_float : String → Option ℤ) (row : Stamp)
      (k : ℕ) (request : RegistrationCreate) (user : CurrentUser)
      → IsValid (create_registration http_get settings parse_float row k request user s).1.db
  unfolding new_registration
  create_registration-IsValid http_get settings parse_float row k request user =
      elim (create_registration_cases http_get settings parse_float row k request user s) [
        | inl refused ↦ rw refused.1 valid
        | inr (_, _, _, _, _, _, new, _, done) ↦ rw done (
          valid.0,
          λ o u.
              registered_once s.db.registrations (new_registration row k user.id request)
                (count_zero_of_missing _ s.db.registrations new) o u (valid.1 o u),
        )
      ]

  run_deadlines-IsValid : (office : Office) (now : ℕ) → IsValid (run_deadlines office now s).1.db
  run_deadlines-IsValid office now = rw (run_deadlines_closes office now s valid.0) (
    (λ k. rw (count-closed office s.db.registrations now k s.db.opportunities) (valid.0 k)),
    valid.1,
  )

-- One request or one run, at any input. A row that is added has a key of its own (uuid4).
pub data Step (s : Server Db World) : Server Db World → Type 0 where
  creates :
      (row : Stamp) (field_ids rule_ids : ℕ → ℕ) (request : OpportunityCreate) (user : CurrentUser)
      → count (has_id row.id) s.db.opportunities ≡ 0
      → Step s (create_opp row field_ids rule_ids request user s).1
  patches :
      (k : ℕ) (request : OpportunityUpdate) (user : CurrentUser)
      → Step s (patch_opp k request user s).1
  registers :
      (http_get : HttpClient) (settings : Settings) (parse_float : String → Option ℤ) (row : Stamp)
      (k : ℕ) (request : RegistrationCreate) (user : CurrentUser)
      → Step s (create_registration http_get settings parse_float row k request user s).1
  runs : (office : Office) (now : ℕ) → Step s (run_deadlines office now s).1

pub data Serves (s : Server Db World) : Server Db World → Type 0 where
  here : Serves s s
  next : {t u : Server Db World} → Serves s t → Step t u → Serves s u

Step-IsValid : {s t : Server Db World} → IsValid s.db → Step s t → IsValid t.db
Step-IsValid {s} v (creates row f g request user fresh) =
    create_opp-IsValid s v row f g request user fresh
Step-IsValid {s} v (patches k request user) = patch_opp-IsValid s v k request user
Step-IsValid {s} v (registers http_get settings parse_float row k request user) =
    create_registration-IsValid s v http_get settings parse_float row k request user
Step-IsValid {s} v (runs office now) = run_deadlines-IsValid s v office now

-- From a well-formed opportunity_db every sequence of requests and of runs of the scheduler leads
-- to a well-formed one: the keys of the opportunities are unique, and no student is registered
-- twice for one opportunity.
pub Serves-IsValid : {s t : Server Db World} → IsValid s.db → Serves s t → IsValid t.db
Serves-IsValid v here = v
Serves-IsValid v (next steps step) = Step-IsValid (Serves-IsValid v steps) step
