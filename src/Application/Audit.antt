-- ===== src/Application/Audit.antt =====
-- The status that the audit log records for an application, read from the log alone.
use campus_hr_b.Prelude.{
  ℕ, String, ◌≡◌, refl, Option, none, some, List, [], ◌∷◌, ◌++◌, ◌==◌, str_eq, if◌then◌else◌,
}
use campus_hr_b.Json.{Json, Dict, text, get}
use campus_hr_b.Application.Model.{Application, AuditLog}

as_text : Option Json → Option String
as_text (some (text t)) = some t
as_text _ = none

field_text : String → Option Dict → Option String
unfolding as_text
field_text k none = none
field_text k (some d) = as_text (get k d)

-- what an entry says that the status has become
unfoldable pub status_logged : AuditLog → Option String
unfolding field_text get
status_logged log =
    if str_eq log.action "withdrawn"
    then some "Withdrawn"
    else if str_eq log.action "status_changed"
    then field_text "to" log.payload
    else field_text "status" log.payload

-- the last entry of the application decides
unfoldable pub last_status : ℕ → Option String → List AuditLog → Option String
last_status k before [] = before
last_status k before (log ∷ logs) =
    last_status k (if log.application_id == k then status_logged log else before) logs

pub last_status-append_one :
    (k : ℕ) (before : Option String) (logs : List AuditLog) (log : AuditLog)
    → last_status k before (logs ++ log ∷ [])
      ≡ (if log.application_id == k then status_logged log else last_status k before logs)
unfolding last_status
last_status-append_one k before [] log = refl
last_status-append_one k before (l ∷ logs) log =
    last_status-append_one k (if l.application_id == k then status_logged l else before) logs log

abbrev pub status_of : Option Application → Option String
status_of none = none
status_of (some app) = some app.status
