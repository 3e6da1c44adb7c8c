-- ===== src/Application/Model.antt =====
-- services/application-service/app/models.py and schemas.py. The uuid4 and the server's now() of a
-- row that is added are its stamp.
use campus_hr_b.Prelude.{ℕ, String, Bool, true, false, Option, none, some, List, ◌==◌, ◌&&◌}
use campus_hr_b.Json.{Json, Dict}
use campus_hr_b.Common.Enums.{ApplicationStatus}
use campus_hr_b.Events.{Broker}
use campus_hr_b.Session.{Session, Server, Exec}

pub record Application : Type 0 where
  pub id : ℕ
  pub opportunity_id : ℕ
  pub student_id : ℕ
  pub status : String
  pub resume_url : Option String
  pub profile_snapshot : Option Json
  pub overrides : Option Dict
  pub created_at : ℕ

pub record WorkflowStage : Type 0 where
  pub id : ℕ
  pub application_id : ℕ
  pub stage_name : String
  pub entered_at : ℕ
  pub exited_at : Option ℕ
  pub actor_id : Option ℕ

pub record AuditLog : Type 0 where
  pub id : ℕ
  pub application_id : ℕ
  pub entity : String
  pub action : String
  pub payload : Option Dict
  pub created_at : ℕ

-- application_db
pub record Db : Type 0 where
  pub applications : List Application
  pub stages : List WorkflowStage
  pub audit_logs : List AuditLog

pub record ApplicationCreate : Type 0 where
  pub opportunity_id : ℕ
  pub overrides : Dict
  pub resume_url : Option String

pub record StatusUpdate : Type 0 where
  pub status : ApplicationStatus

pub record TimelineResponse : Type 0 where
  pub application : Application
  pub stages : List WorkflowStage

pub record Stamp : Type 0 where
  pub id : ℕ
  pub now : ℕ

abbrev pub Handler : Type 0 → Type 0
Handler A = Exec (Session Db Broker) A

abbrev pub Route : Type 0 → Type 0
Route A = Exec (Server Db Broker) A

-- `Application.id == k`
abbrev pub has_id : ℕ → Application → Bool
has_id k app = app.id == k

-- `Application.opportunity_id == o, Application.student_id == s`
abbrev pub applied_by : ℕ → ℕ → Application → Bool
applied_by o s app = app.opportunity_id == o && app.student_id == s

abbrev pub not_exited : Option ℕ → Bool
not_exited none = true
not_exited (some t) = false

-- `WorkflowStage.application_id == k, WorkflowStage.exited_at.is_(None)`
abbrev pub open_stage_of : ℕ → WorkflowStage → Bool
open_stage_of k stage = stage.application_id == k && not_exited stage.exited_at

abbrev pub is_stage : ℕ → WorkflowStage → Bool
is_stage k stage = stage.id == k

abbrev pub stage_of : ℕ → WorkflowStage → Bool
stage_of k stage = stage.application_id == k
