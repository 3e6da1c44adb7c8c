-- ===== src/Application/Withdraw.antt =====
-- `withdraw_application`: who may withdraw, and what is written.
use campus_hr_b.Prelude.{ℕ, ◌≡◌, refl, ◌⊎◌, inl, inr, Option, none, some, arith, ◌==◌, Bool-cases}
use campus_hr_b.Common.Enums.{CurrentUser, UserRole, student, coordinator}
use campus_hr_b.Events.{Broker}
use campus_hr_b.Session.{Server, ok, http_exception, Refused}
use campus_hr_b.Table.{first}
use campus_hr_b.Application.Model.{Application, AuditLog, Db, Stamp, has_id}
use campus_hr_b.Application.Service.{withdraw, set_status, log_audit}
use campus_hr_b.Application.Api.{withdraw_application}
use campus_hr_b.Application.Effects.{with_status, with_log}

-- the entry that a withdrawal adds to the audit log
abbrev pub withdrawn_log : Stamp → ℕ → AuditLog
withdrawn_log row k = record {
  id = row.id;
  application_id = k;
  entity = "application";
  action = "withdrawn";
  payload = none;
  created_at = row.now;
}

-- the state after a withdrawal
abbrev pub withdrawn : Stamp → Application → Server Db Broker → Server Db Broker
withdrawn row app s = record s {
  db = with_log (withdrawn_log row app.id) (with_status app.id "Withdrawn" s.db);
}

module _ (row : Stamp) (k : ℕ) (user : CurrentUser) (s : Server Db Broker) where
  abbrev pub Withdraws : Type 0
  Withdraws =
      (app : Application) × (user.role ≡ student)
      × (first (has_id k) s.db.applications ≡ some app)
      × (app.student_id ≡ user.id)
      × (withdraw_application row k user s
          ≡ (ok (record app { status = "Withdrawn" }), withdrawn row app s))

  found_case :
      (o : Option Application)
      → user.role ≡ student
      → first (has_id k) s.db.applications ≡ o
      → Refused (withdraw_application row k user s) s ⊎ Withdraws
  unfolding withdraw_application withdraw set_status log_audit
  found_case none r e = inl (rw (r, e) ((http_exception 404 "Application not found", refl), refl))
  found_case (some app) r e = elim (Bool-cases (app.student_id == user.id)) [
    | inl own ↦ inr (app, r, e, ground arith, rw (r, e, own))
    | inr foreign ↦
        inl (rw (r, e, foreign) ((http_exception 403 "Not your application", refl), refl))
  ]

  -- The route refuses and changes nothing, or the caller is the student whose application it is.
  pub withdraw_cases : Refused (withdraw_application row k user s) s ⊎ Withdraws
  unfolding withdraw_application
  withdraw_cases = role_case user.role refl
    where
      role_case :
          (r : UserRole) → user.role ≡ r → Refused (withdraw_application row k user s) s ⊎ Withdraws
      role_case student r = found_case (first (has_id k) s.db.applications) r refl
      role_case coordinator r = inl (rw r ((http_exception 403 "Student only", refl), refl))
