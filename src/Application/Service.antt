-- ===== src/Application/Service.antt =====
-- services/application-service/app/services/application_service.py. `db.refresh` re-reads the row
-- that the session has just committed, and gives that row.
use Prim.Native.String.{◌++◌ as str_append}
use campus_hr_b.Prelude.{
  ℕ, String, Option, none, some, List, [], ◌∷◌, ◌++◌, not, ◌==◌, if◌then◌else◌, is_some,
}
use campus_hr_b.Json.{Json, Dict, text, obj, entry, end}
use campus_hr_b.Common.Enums.{
  ApplicationStatus, applied, shortlisted, rejected, application_status_value,
}
use campus_hr_b.Common.Uuid.{to_text}
use campus_hr_b.Events.{
  DomainEvent, EventType, application_submitted, application_shortlisted, application_rejected,
  publish,
}
use campus_hr_b.Http.{HttpClient, Reply, Settings, failed, reply}
use campus_hr_b.Session.{
  http_exception, client_error, pure, raise, or_raise, raise_if, ◌>>=◌, ◌>>◌, query, modify, commit,
  outside,
}
use campus_hr_b.Table.{first, update_where}
use campus_hr_b.Application.Model.{
  Application, WorkflowStage, ApplicationCreate, StatusUpdate, Stamp, Handler, has_id, applied_by,
  open_stage_of, is_stage,
}

unfoldable pub add_application : Application → Handler Unit
add_application app = modify λ db. record db { applications = db.applications ++ app ∷ [] }

unfoldable pub add_stage : WorkflowStage → Handler Unit
add_stage stage = modify λ db. record db { stages = db.stages ++ stage ∷ [] }

-- `app.status = ...`
unfoldable pub set_status : ℕ → String → Handler Unit
set_status k status = modify λ db. record db {
  applications = update_where (has_id k) (λ app. record app { status = status }) db.applications;
}

-- `if current_stage: current_stage.exited_at = ...`
abbrev pub ended : Option WorkflowStage → ℕ → List WorkflowStage → List WorkflowStage
ended none now stages = stages
ended (some stage) now stages =
    update_where (is_stage stage.id) (λ s. record s { exited_at = some now }) stages

unfoldable pub exit_stage : Option WorkflowStage → ℕ → Handler Unit
exit_stage current now = modify λ db. record db { stages = ended current now db.stages }

unfoldable pub log_audit : Stamp → ℕ → String → String → Option Dict → Handler Unit
log_audit row application_id entity action payload = modify λ db. record db {
  audit_logs =
      db.audit_logs
      ++ record {
        id = row.id;
        application_id = application_id;
        entity = entity;
        action = action;
        payload = payload;
        created_at = row.now;
      }
        ∷ [];
}

unfoldable pub event_of_status : ApplicationStatus → Option EventType
event_of_status shortlisted = some application_shortlisted
event_of_status rejected = some application_rejected
event_of_status _ = none

-- the rows that `apply` adds
unfoldable pub new_application : Stamp → ℕ → ApplicationCreate → Json → Application
new_application row student_id request profile = record {
  id = row.id;
  opportunity_id = request.opportunity_id;
  student_id = student_id;
  status = application_status_value applied;
  resume_url = request.resume_url;
  profile_snapshot = some profile;
  overrides = some request.overrides;
  created_at = row.now;
}

unfoldable pub registration_stage : Stamp → ℕ → WorkflowStage
registration_stage row application_id = record {
  id = row.id;
  application_id = application_id;
  stage_name = "Registration";
  entered_at = row.now;
  exited_at = none;
  actor_id = none;
}

-- the row that `update_status` adds
unfoldable pub status_stage : Stamp → ℕ → String → ℕ → WorkflowStage
status_stage row application_id status actor_id = record {
  id = row.id;
  application_id = application_id;
  stage_name = status;
  entered_at = row.now;
  exited_at = none;
  actor_id = some actor_id;
}

-- the event that tells a student of a new application
unfoldable pub submitted : Application → ℕ → DomainEvent
submitted app student_id = record {
  event_type = application_submitted;
  payload = entry "application_id" (text (to_text app.id)) (
      entry "student_id" (text (to_text student_id))
        (entry "opportunity_id" (text (to_text app.opportunity_id)) end));
  actor_id = some student_id;
  correlation_id = none;
}

unfoldable pub status_event : EventType → Application → ℕ → DomainEvent
status_event event_type app actor_id = record {
  event_type = event_type;
  payload =
      entry "application_id" (text (to_text app.id))
        (entry "student_id" (text (to_text app.student_id)) end);
  actor_id = some actor_id;
  correlation_id = none;
}

-- `if data.status in event_map: await publisher.publish(...)`
unfoldable pub publish_status : Option EventType → Application → ℕ → Handler Unit
publish_status none app actor_id = pure tt
publish_status (some event_type) app actor_id =
    outside (publish (status_event event_type app actor_id))

abbrev pub profile_url : Settings → ℕ → String
profile_url settings user_id =
    str_append settings.identity_service_url (str_append "/api/v1/auth/profile/" (to_text user_id))

abbrev pub opportunity_url : Settings → ℕ → String
opportunity_url settings opportunity_id =
    str_append settings.opportunity_service_url
      (str_append "/api/v1/opportunities/" (to_text opportunity_id))

-- what `fetch_profile` makes of the answer
unfoldable pub profile_of : Reply → Handler Json
profile_of failed = raise client_error
profile_of (reply status body) =
    if status == 200 then or_raise body client_error else pure (obj end)

-- what `fetch_opportunity` makes of the answer
unfoldable pub opportunity_of : Reply → Handler Json
opportunity_of failed = raise client_error
opportunity_of (reply status body) =
    if status == 200
    then or_raise body client_error
    else raise (http_exception 404 "Opportunity not found")

module _ (http_get : HttpClient) (settings : Settings) where
  unfoldable pub fetch_profile : ℕ → Handler Json
  fetch_profile user_id = profile_of (http_get (profile_url settings user_id))

  unfoldable pub fetch_opportunity : ℕ → Handler Json
  fetch_opportunity opportunity_id =
      opportunity_of (http_get (opportunity_url settings opportunity_id))

  -- `app_row`, `stage_row` and `log_row` are the stamps of the three rows that are added
  unfoldable pub apply : Stamp → Stamp → Stamp → ℕ → ApplicationCreate → Handler Application
  apply app_row stage_row log_row student_id request = do
    fetch_opportunity request.opportunity_id
    existing ← query λ db. first (applied_by request.opportunity_id student_id) db.applications
    raise_if (is_some existing) (http_exception 400 "Already applied")
    profile ← fetch_profile student_id
    let app = new_application app_row student_id request profile
    add_application app
    add_stage (registration_stage stage_row app.id)
    log_audit log_row app.id "application" "created" (some (entry "status" (text app.status) end))
    commit
    outside (publish (submitted app student_id))
    pure app

unfoldable pub withdraw : Stamp → ℕ → ℕ → Handler Application
withdraw log_row application_id student_id = do
  found ← query λ db. first (has_id application_id) db.applications
  app ← or_raise found (http_exception 404 "Application not found")
  raise_if (not (app.student_id == student_id)) (http_exception 403 "Not your application")
  set_status app.id "Withdrawn"
  log_audit log_row app.id "application" "withdrawn" none
  commit
  pure (record app { status = "Withdrawn" })

-- `now` is the service's clock, which times the end of the stage
unfoldable pub update_status : Stamp → Stamp → ℕ → ℕ → ℕ → StatusUpdate → Handler Application
update_status stage_row log_row now application_id actor_id update = do
  found ← query λ db. first (has_id application_id) db.applications
  app ← or_raise found (http_exception 404 "Application not found")
  let status = application_status_value update.status
  set_status app.id status
  current_stage ← query λ db. first (open_stage_of app.id) db.stages
  exit_stage current_stage now
  add_stage (status_stage stage_row app.id status actor_id)
  log_audit log_row app.id "application" "status_changed"
      (some (entry "from" (text app.status) (entry "to" (text status) end)))
  commit
  publish_status (event_of_status update.status) app actor_id
  pure (record app { status = status })
