-- ===== src/Opportunity/Closing.antt =====
-- The scheduler closes an opportunity in time, among all other requests.
use campus_hr_b.Prelude.{
  ℕ, zero, suc, ◌+◌, ◌<◌, ◌≤◌, ◌≡◌, ◌≢◌, refl, ap, ◌∙◌, true, false, String, Option, none, some,
  List, [], ◌∷◌, map, ◌==◌, arith, Bool-cases, inl, inr,
}
use campus_hr_b.Json.{ℤ}
use campus_hr_b.Common.Enums.{CurrentUser}
use campus_hr_b.Http.{HttpClient, Settings}
use campus_hr_b.Session.{Server}
use campus_hr_b.Table.{first}
use campus_hr_b.Table.Count.{found_passes}
use campus_hr_b.Table.Rows.{first-append_found, first-update_where_other}
use campus_hr_b.Opportunity.Model.{
  Opportunity, OpportunityCreate, OpportunityUpdate, RegistrationCreate, Stamp, Db, World, has_id,
  is_due, is_past,
}
use campus_hr_b.Opportunity.Service.{Office, new_opportunity}
use campus_hr_b.Opportunity.Api.{create_opp, patch_opp, create_registration}
use campus_hr_b.Opportunity.Ownership.{patch_opp_cases, updated_fields}
use campus_hr_b.Opportunity.Creating.{create_opp_cases}
use campus_hr_b.Opportunity.Registering.{create_registration_cases}
use campus_hr_b.Opportunity.Deadlines.{closed, closed_if_due, run_deadlines_ok}
use campus_hr_b.Opportunity.Requests.{IsValid, Serves, Serves-IsValid}
use campus_hr_b.Opportunity.Requests
use campus_hr_b.Opportunity.Scheduler.{
  Timeline, started, creates, patches, registers, runs, interval, run_time,
}

is_past_later : (t u : ℕ) (d : Option ℕ) → t ≤ u → is_past d t ≡ true → is_past d u ≡ true
is_past_later t u none le h = cc
is_past_later t u (some d) le h = ground (arith, le, h)

is_due_later : (t u : ℕ) (x : Opportunity) → t ≤ u → is_due t x ≡ true → is_due u x ≡ true
is_due_later t u x le h = elim (Bool-cases (is_past x.deadline t)) [
  | inr later ↦ absurd (cc (rw later at h))
  | inl past ↦ rw (is_past_later t u x.deadline le past) (rw past at h)
]

closed_not_due : (u : ℕ) (x : Opportunity) → is_due u (closed x) ≡ false
closed_not_due u x = elim (Bool-cases (is_past x.deadline u)) [
  | inl past ↦ rw past refl
  | inr later ↦ rw later refl
]

-- a later run closes what an earlier one would
closed_if_due-twice :
    (t u : ℕ) (x : Opportunity) → t ≤ u → closed_if_due u (closed_if_due t x) ≡ closed_if_due u x
closed_if_due-twice t u x le = elim (Bool-cases (is_due t x)) [
  | inl due ↦ rw (due, closed_not_due u x, is_due_later t u x le due) refl
  | inr open' ↦ rw open' refl
]

Timeline-Serves :
    {office : Office} {start k : ℕ} {s : Server Db World} {n : ℕ} {t : Server Db World}
    → Timeline office start k s n t
    → Serves s t
Timeline-Serves started = Requests.here
Timeline-Serves (creates line row f g request user fresh) =
    Requests.next (Timeline-Serves line) (Requests.creates row f g request user fresh)
Timeline-Serves (patches line j request user other) =
    Requests.next (Timeline-Serves line) (Requests.patches j request user)
Timeline-Serves (registers line http_get settings parse_float row j request user) =
    Requests.next (Timeline-Serves line)
      (Requests.registers http_get settings parse_float row j request user)
Timeline-Serves {office} {start} {n = suc n} (runs line fine) =
    Requests.next (Timeline-Serves line) (Requests.runs office (run_time start (suc n)))

abbrev all_closed : ℕ → List Opportunity → List Opportunity
all_closed now opps = map (closed_if_due now) opps

first-all_closed :
    (now k : ℕ) (opps : List Opportunity) (opp : Opportunity)
    → first (has_id k) opps ≡ some opp
    → first (has_id k) (all_closed now opps) ≡ some (closed_if_due now opp)
unfolding first
first-all_closed now k [] opp e = cc
first-all_closed now k (x ∷ xs) opp e = elim (Bool-cases (has_id k x)) [
  | inl hit ↦
      let same : closed_if_due now x ≡ closed_if_due now opp =
        ap (closed_if_due now) (some_of (rw hit at e)) in
      elim (Bool-cases (is_due now x)) [
        | inl due ↦ rw (due, hit) (ap some (rw due at same))
        | inr open' ↦ rw (open', hit) (ap some (rw open' at same))
      ]
  | inr miss ↦
      let rest = first-all_closed now k xs opp (rw miss at e) in
      elim (Bool-cases (is_due now x)) [
        | inl due ↦ rw (due, miss) rest
        | inr open' ↦ rw (open', miss) rest
      ]
]
  where
    some_of : {a b : Opportunity} → some a ≡ some b → a ≡ b
    some_of q = cc q

due_at :
    (opp : Opportunity) (deadline now : ℕ)
    → opp.deadline ≡ some deadline
    → opp.status ≡ "published"
    → deadline ≤ now
    → closed_if_due now opp ≡ closed opp
due_at opp deadline now d p le =
    let due : is_due now opp ≡ true = rw (d, p) (ground (arith, le)) in rw due refl

-- the opportunity after the n-th run
abbrev seen : ℕ → ℕ → Opportunity → Opportunity
seen start zero opp = opp
seen start (suc n) opp = closed_if_due (run_time start (suc n)) opp

seen-closed :
    (start n : ℕ) (opp : Opportunity)
    → closed_if_due (run_time start (suc n)) (seen start n opp) ≡ seen start (suc n) opp
seen-closed start zero opp = refl
seen-closed start (suc n) opp =
    closed_if_due-twice (run_time start (suc n)) (run_time start (suc (suc n))) opp (omega arith)

module _ (k : ℕ) (s : Server Db World) (opp : Opportunity)
    (e : first (has_id k) s.db.opportunities ≡ some opp) where
  create_opp-other :
      (row : Stamp) (field_ids rule_ids : ℕ → ℕ) (request : OpportunityCreate) (user : CurrentUser)
      → first (has_id k) (create_opp row field_ids rule_ids request user s).1.db.opportunities
        ≡ some opp
  create_opp-other row field_ids rule_ids request user =
      elim (create_opp_cases row field_ids rule_ids request user s) [
        | inl refused ↦ rw refused.1 e
        | inr (_, _, made) ↦ rw made (
            first-append_found (has_id k) s.db.opportunities (new_opportunity row user.id request)
              e)
      ]

  patch_opp-other :
      (j : ℕ) (request : OpportunityUpdate) (user : CurrentUser)
      → j ≢ k
      → first (has_id k) (patch_opp j request user s).1.db.opportunities ≡ some opp
  patch_opp-other j request user other = elim (patch_opp_cases j request user s) [
    | inl refused ↦ rw refused.1 e
    | inr (old, new, _, found, _, good, made) ↦
        let same = (updated_fields request old new good).0 in
        let own : (old.id == j) ≡ true = found_passes (has_id j) s.db.opportunities found in
        rw made (
          first-update_where_other (has_id k) (has_id old.id) (λ x. new) s.db.opportunities
            (λ a hit. (ground (arith, other, hit, own), ground (arith, other, own, same)))
          ∙ e)
  ]

  create_registration-other :
      (http_get : HttpClient) (settings : Settings) (parse_float : String → Option ℤ) (row : Stamp)
      (j : ℕ) (request : RegistrationCreate) (user : CurrentUser)
      → first
          (has_id k)
          (create_registration http_get settings parse_float row j request user
            s).1.db.opportunities
        ≡ some opp
  create_registration-other http_get settings parse_float row j request user =
      elim (create_registration_cases http_get settings parse_float row j request user s) [
        | inl refused ↦ rw refused.1 e
        | inr (_, _, _, _, _, _, _, _, made) ↦ rw made e
      ]

Timeline-seen :
    {office : Office} {start k : ℕ} {s : Server Db World} (opp : Opportunity) {n : ℕ}
    {t : Server Db World}
    → IsValid s.db
    → first (has_id k) s.db.opportunities ≡ some opp
    → Timeline office start k s n t
    → first (has_id k) t.db.opportunities ≡ some (seen start n opp)
Timeline-seen opp valid e started = e
Timeline-seen {k = k} opp valid e (creates {t = u} line row f g request user fresh) =
    create_opp-other k u _ (Timeline-seen opp valid e line) row f g request user
Timeline-seen {k = k} opp valid e (patches {t = u} line j request user other) =
    patch_opp-other k u _ (Timeline-seen opp valid e line) j request user other
Timeline-seen {k = k} opp valid e
      (registers {t = u} line http_get settings parse_float row j request user) =
    create_registration-other k u _ (Timeline-seen opp valid e line) http_get settings parse_float
      row j request user
Timeline-seen {office} {start} {k} opp valid e (runs {n = n} {t = u} line fine) =
    let now = run_time start (suc n) in
    ap (first (has_id k))
      (run_deadlines_ok office now u (Serves-IsValid valid (Timeline-Serves line)).0 fine)
    ∙ first-all_closed now k u.db.opportunities (seen start n opp) (Timeline-seen opp valid e line)
    ∙ ap some (seen-closed start n opp)

-- From a well-formed opportunity_db: an opportunity that is published, and whose deadline is not
-- before the scheduler's start, is closed at every time from a minute after the deadline on, if by
-- then the job has had its runs and none of them has raised an error, whatever requests are served
-- before, between and after them, as long as none of them changes the opportunity itself.
pub runs_close :
    (office : Office) (start k : ℕ) (s : Server Db World) (opp : Opportunity) (deadline now n : ℕ)
    (t : Server Db World)
    → IsValid s.db
    → first (has_id k) s.db.opportunities ≡ some opp
    → opp.status ≡ "published"
    → opp.deadline ≡ some deadline
    → start ≤ deadline
    → Timeline office start k s n t
    → deadline + interval ≤ now
    → now < run_time start (suc n)
    → first (has_id k) t.db.opportunities ≡ some (record opp { status = "closed" })
runs_close office start k s opp deadline now zero t valid found published dated later line late
      next =
    absurd (omega (arith, late, next, later))
runs_close office start k s opp deadline now (suc n) t valid found published dated later line late
      next =
    Timeline-seen opp valid found line
    ∙ ap some
        (due_at opp deadline (run_time start (suc n)) dated published (omega (arith, late, next)))
