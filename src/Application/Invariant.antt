-- ===== src/Application/Invariant.antt =====
-- What every request keeps of application_db.
use campus_hr_b.Prelude.{ℕ, ◌≡◌, ◌≤◌, none}
use campus_hr_b.Table.{first}
use campus_hr_b.Table.Count.{count}
use campus_hr_b.Application.Model.{Db, has_id, applied_by, open_stage_of, is_stage}
use campus_hr_b.Application.Audit.{last_status, status_of}

pub record IsValid (db : Db) : Type 0 where
  -- primary keys
  pub one_row : (k : ℕ) → count (has_id k) db.applications ≤ 1
  pub one_stage_row : (k : ℕ) → count (is_stage k) db.stages ≤ 1
  -- no student applies twice to one opportunity
  pub one_application : (o s : ℕ) → count (applied_by o s) db.applications ≤ 1
  -- an application is in exactly one stage, and there is no open stage of anything else
  pub one_open_stage :
      (k : ℕ) → count (open_stage_of k) db.stages ≡ count (has_id k) db.applications
  -- the status of each application is what its audit log ends with
  pub audited :
      (k : ℕ) → status_of (first (has_id k) db.applications) ≡ last_status k none db.audit_logs
