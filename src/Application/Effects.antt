-- ===== src/Application/Effects.antt =====
-- What the operations write to application_db in one commit, and that it keeps the invariant.
use campus_hr_b.Prelude.{
  ℕ, ◌≢◌, String, ◌≡◌, ◌≤◌, refl, sym, true, false, Option, none, some, [], ◌∷◌, ◌++◌, arith, ◌==◌,
  inl, inr, Option-cases, ◌∙◌,
}
use mathlib.Core.Path.{subst}
use native.Mathlib.Decide.{ℕ_discrete}
use campus_hr_b.Table.{first, update_where}
use campus_hr_b.Table.Count.{
  count, count-append_one, count_zero_of_missing, found_passes, count_pos_of_found,
  count-append_fresh,
}
use campus_hr_b.Table.Rows.{
  count-update_where_same, count-update_where_found, first-update_where_other,
  first-update_where_self,
}
use campus_hr_b.Application.Model.{
  Application, WorkflowStage, AuditLog, Db, has_id, applied_by, open_stage_of, is_stage,
}
use campus_hr_b.Application.Audit.{last_status, status_logged, status_of, last_status-append_one}
use campus_hr_b.Application.Service.{ended}
use campus_hr_b.Application.Invariant.{IsValid}

abbrev pub with_status : ℕ → String → Db → Db
with_status k status db = record db {
  applications = update_where (has_id k) (λ app. record app { status = status }) db.applications;
}

abbrev pub with_log : AuditLog → Db → Db
with_log log db = record db { audit_logs = db.audit_logs ++ log ∷ [] }

pub key_refl : (k : ℕ) → (k == k) ≡ true
key_refl k = ground arith

-- two different keys name no row together
pub other_key : (j k i : ℕ) → j ≢ k → (i == k) ≡ true → (i == j) ≡ false
other_key j k i ne e = ground arith

module _ (db : Db) (valid : IsValid db) (k : ℕ) {app : Application}
    (found : first (has_id k) db.applications ≡ some app) (status : String) (log : AuditLog)
    (about : log.application_id ≡ k) (says : status_logged log ≡ some status) where
  audited_self :
      status_of (first (has_id k) (with_status k status db).applications)
      ≡ last_status k none (db.audit_logs ++ log ∷ [])
  audited_self = ground (
    arith,
    first-update_where_self (has_id k) (λ a. record a { status = status }) db.applications
        (λ a. refl) found,
    last_status-append_one k none db.audit_logs log,
  )

  audited_other :
      (j : ℕ)
      → j ≢ k
      → status_of (first (has_id j) (with_status k status db).applications)
        ≡ last_status j none (db.audit_logs ++ log ∷ [])
  audited_other j ne = ground (
    arith,
    first-update_where_other (has_id j) (has_id k) (λ a. record a { status = status })
        db.applications (λ a h. (other_key j k a.id ne h, other_key j k a.id ne h)),
    last_status-append_one j none db.audit_logs log,
    valid.audited j,
  )

  -- a new status is recorded together with its log entry
  pub audited-with_status :
      (j : ℕ)
      → status_of (first (has_id j) (with_status k status db).applications)
        ≡ last_status j none (db.audit_logs ++ log ∷ [])
  audited-with_status j = elim (ℕ_discrete j k) [
    | yes e ↦
        subst
          (λ i.
            status_of (first (has_id i) (with_status k status db).applications)
            ≡ last_status i none (db.audit_logs ++ log ∷ []))
          (sym e) audited_self
    | no ne ↦ audited_other j ne
  ]

abbrev pub with_stage : WorkflowStage → Db → Db
with_stage stage db = record db { stages = db.stages ++ stage ∷ [] }

-- the stage that was found, if any, has ended
abbrev pub with_exit : Option WorkflowStage → ℕ → Db → Db
with_exit current now db = record db { stages = ended current now db.stages }

abbrev pub with_application : Application → Db → Db
with_application app db = record db { applications = db.applications ++ app ∷ [] }

-- `withdraw`
pub withdrawn-IsValid :
    (db : Db) (k : ℕ) {app : Application} (log : AuditLog) (status : String)
    → IsValid db
    → first (has_id k) db.applications ≡ some app
    → log.application_id ≡ k
    → status_logged log ≡ some status
    → IsValid (with_log log (with_status k status db))
withdrawn-IsValid db k log status valid found about says = record {
  one_row = λ j.
      rw
        (count-update_where_same (has_id j) (has_id k) (λ a. record a { status = status })
          db.applications (λ a h. refl))
        (valid.one_row j);
  one_stage_row = valid.one_stage_row;
  one_application = λ o s.
      rw
        (count-update_where_same (applied_by o s) (has_id k) (λ a. record a { status = status })
          db.applications (λ a h. refl))
        (valid.one_application o s);
  one_open_stage = λ j.
      rw
        (count-update_where_same (has_id j) (has_id k) (λ a. record a { status = status })
          db.applications (λ a h. refl))
        (valid.one_open_stage j);
  audited = audited-with_status db valid k found status log about says;
}

exit_keeps_rows :
    (db : Db) (j : ℕ) (o : Option WorkflowStage) (now : ℕ)
    → count (is_stage j) (with_exit o now db).stages ≡ count (is_stage j) db.stages
exit_keeps_rows db j none now = refl
exit_keeps_rows db j (some stage) now =
    count-update_where_same (is_stage j) (is_stage stage.id)
      (λ s. record s { exited_at = some now }) db.stages (λ a h. refl)

-- The open stage of an application ends and another begins: the counts of open stages stay.
module _ (db : Db) (valid : IsValid db) (k : ℕ) {app : Application}
    (found : first (has_id k) db.applications ≡ some app) (now : ℕ) (stage : WorkflowStage)
    (about : stage.application_id ≡ k) (entered : stage.exited_at ≡ none) where
  ends_one :
      (j : ℕ) {current : WorkflowStage}
      → first (open_stage_of k) db.stages ≡ some current
      → count (open_stage_of j) (with_stage stage (with_exit (some current) now db)).stages
        ≡ count (open_stage_of j) db.stages
  ends_one j {current} e = ground (
    arith,
    count-append_one (open_stage_of j) (with_exit (some current) now db).stages stage,
    count-update_where_found (open_stage_of j) (open_stage_of k) (is_stage current.id)
        (λ s. record s { exited_at = some now }) db.stages (valid.one_stage_row current.id) e
        (key_refl current.id),
    found_passes (open_stage_of k) db.stages e,
  )

  pub one_open_stage-moved :
      (j : ℕ)
      → count
          (open_stage_of j)
          (with_stage stage (with_exit (first (open_stage_of k) db.stages) now db)).stages
        ≡ count (open_stage_of j) db.stages
  one_open_stage-moved j = elim (Option-cases (first (open_stage_of k) db.stages)) [
    | inl nothing ↦ absurd (
        omega (
          arith,
          count_zero_of_missing (open_stage_of k) db.stages nothing,
          valid.one_open_stage k,
          count_pos_of_found (has_id k) (has_id k) db.applications found
              (found_passes (has_id k) db.applications found),
        ))
    | inr (current, e) ↦ rw e (ends_one j e)
  ]

  pub one_stage_row-moved :
      count (is_stage stage.id) db.stages ≡ 0
      → (j : ℕ)
      → count
          (is_stage j)
          (with_stage stage (with_exit (first (open_stage_of k) db.stages) now db)).stages
        ≤ 1
  one_stage_row-moved fresh j =
      let ended = (with_exit (first (open_stage_of k) db.stages) now db).stages in
      count-append_fresh (λ s. s.id) ended stage j
        (exit_keeps_rows db stage.id (first (open_stage_of k) db.stages) now ∙ fresh)
        (rw (exit_keeps_rows db j (first (open_stage_of k) db.stages) now) (valid.one_stage_row j))

-- `update_status`
pub moved-IsValid :
    (db : Db) (k : ℕ) {app : Application} (log : AuditLog) (status : String) (now : ℕ)
    (stage : WorkflowStage)
    → IsValid db
    → first (has_id k) db.applications ≡ some app
    → log.application_id ≡ k
    → status_logged log ≡ some status
    → stage.application_id ≡ k
    → stage.exited_at ≡ none
    → count (is_stage stage.id) db.stages ≡ 0
    → IsValid (
        with_log log (
          with_stage stage
            (with_exit (first (open_stage_of k) db.stages) now (with_status k status db))))
moved-IsValid db k log status now stage valid found about says of_app entered fresh =
    let valid' = withdrawn-IsValid db k log status valid found about says in
    record {
      one_row = valid'.one_row;
      one_stage_row = one_stage_row-moved db valid k found now stage of_app entered fresh;
      one_application = valid'.one_application;
      one_open_stage = λ j.
          one_open_stage-moved db valid k found now stage of_app entered j
          ∙ valid'.one_open_stage j;
      audited = valid'.audited;
    }
