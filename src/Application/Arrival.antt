-- ===== src/Application/Arrival.antt =====
-- A new application with its first stage and its audit log keeps the invariant.
use campus_hr_b.Prelude.{
  ℕ, ◌≡◌, ◌≤◌, sym, true, none, some, [], ◌∷◌, ◌++◌, arith, inl, inr, Bool-cases,
}
use mathlib.Core.Path.{subst}
use native.Mathlib.Decide.{ℕ_discrete}
use campus_hr_b.Table.{first}
use campus_hr_b.Table.Count.{count, count-append_one, missing_of_count_zero, count-append_fresh}
use campus_hr_b.Table.Rows.{first-append_one}
use campus_hr_b.Application.Model.{
  Application, WorkflowStage, AuditLog, Db, has_id, applied_by, open_stage_of, is_stage,
}
use campus_hr_b.Application.Audit.{last_status, status_logged, status_of, last_status-append_one}
use campus_hr_b.Application.Invariant.{IsValid}
use campus_hr_b.Application.Effects.{with_log, with_stage, with_application}

applied_by_congr :
    (db : Db) (o s : ℕ) (app : Application)
    → applied_by o s app ≡ true
    → count (applied_by o s) db.applications
      ≡ count (applied_by app.opportunity_id app.student_id) db.applications
applied_by_congr db o s app h =
    let eo : app.opportunity_id ≡ o = ground arith in
    let es : app.student_id ≡ s = ground arith in
    λ i. count (applied_by (sym eo i) (sym es i)) db.applications

-- `apply`
module _ (db : Db) (valid : IsValid db) (app : Application) (stage : WorkflowStage) (log : AuditLog)
    (fresh : count (has_id app.id) db.applications ≡ 0)
    (fresh_stage : count (is_stage stage.id) db.stages ≡ 0)
    (new : count (applied_by app.opportunity_id app.student_id) db.applications ≡ 0)
    (of_app : stage.application_id ≡ app.id) (entered : stage.exited_at ≡ none)
    (about : log.application_id ≡ app.id) (says : status_logged log ≡ some app.status) where
  one_application-applied : (o s : ℕ) → count (applied_by o s) (db.applications ++ app ∷ []) ≤ 1
  one_application-applied o s = elim (Bool-cases (applied_by o s app)) [
    | inl same ↦ ground (
      arith,
      count-append_one (applied_by o s) db.applications app,
      applied_by_congr db o s app same,
    )
    | inr differs ↦
        ground
          (arith, count-append_one (applied_by o s) db.applications app, valid.one_application o s)
  ]

  one_open_stage-applied :
      (j : ℕ)
      → count (open_stage_of j) (db.stages ++ stage ∷ [])
        ≡ count (has_id j) (db.applications ++ app ∷ [])
  one_open_stage-applied j = ground (
    arith,
    count-append_one (open_stage_of j) db.stages stage,
    count-append_one (has_id j) db.applications app,
    valid.one_open_stage j,
  )

  audited-applied :
      (j : ℕ)
      → status_of (first (has_id j) (db.applications ++ app ∷ []))
        ≡ last_status j none (db.audit_logs ++ log ∷ [])
  audited-applied j = elim (ℕ_discrete j app.id) [
    | yes e ↦
        subst
          (λ i.
            status_of (first (has_id i) (db.applications ++ app ∷ []))
            ≡ last_status i none (db.audit_logs ++ log ∷ []))
          (sym e)
          (ground (
            arith,
            first-append_one (has_id app.id) db.applications app,
            last_status-append_one app.id none db.audit_logs log,
          ))
    | no ne ↦ ground (
      arith,
      first-append_one (has_id j) db.applications app,
      missing_of_count_zero (has_id j) db.applications,
      last_status-append_one j none db.audit_logs log,
      valid.audited j,
    )
  ]

  pub applied-IsValid : IsValid (with_log log (with_stage stage (with_application app db)))
  applied-IsValid = record {
    one_row = λ j. count-append_fresh (λ a. a.id) db.applications app j fresh (valid.one_row j);
    one_stage_row =
        λ j. count-append_fresh (λ s. s.id) db.stages stage j fresh_stage (valid.one_stage_row j);
    one_application = one_application-applied;
    one_open_stage = one_open_stage-applied;
    audited = audited-applied;
  }
