-- ===== src/Application/Status.antt =====
-- `patch_status`: who moves an application on, and what is written and published.
use campus_hr_b.Prelude.{
  ℕ, String, ◌≡◌, refl, ◌⊎◌, inl, inr, Option, none, some, [], ◌∷◌, ◌++◌, if◌then◌else◌, Bool-cases,
}
use campus_hr_b.Json.{text, entry, end}
use campus_hr_b.Common.Enums.{CurrentUser, UserRole, student, coordinator, application_status_value}
use campus_hr_b.Events.{Broker, EventType, publish}
use campus_hr_b.Session.{Server, Result, ok, err, http_exception, runtime_error, Refused}
use campus_hr_b.Table.{first}
use campus_hr_b.Application.Model.{
  Application, AuditLog, Db, Stamp, StatusUpdate, has_id, open_stage_of,
}
use campus_hr_b.Application.Service.{
  update_status, set_status, exit_stage, add_stage, log_audit, status_stage, status_event,
  event_of_status, publish_status,
}
use campus_hr_b.Application.Api.{patch_status}
use campus_hr_b.Application.Effects.{with_status, with_exit, with_stage, with_log}

-- the entry that a change of status adds to the audit log
abbrev pub changed_log : Stamp → Application → String → AuditLog
changed_log row app status = record {
  id = row.id;
  application_id = app.id;
  entity = "application";
  action = "status_changed";
  payload = some (entry "from" (text app.status) (entry "to" (text status) end));
  created_at = row.now;
}

module _ (stage_row log_row : Stamp) (now k : ℕ) (request : StatusUpdate) (user : CurrentUser)
    (s : Server Db Broker) where
  abbrev status : String
  status = application_status_value request.status

  -- the database after the application has moved
  abbrev pub moved_db : Application → Db
  moved_db app = with_log (changed_log log_row app status) (
      with_stage (status_stage stage_row app.id status user.id)
        (with_exit (first (open_stage_of app.id) s.db.stages) now (with_status app.id status s.db)))

  abbrev moved_app : Application → Application
  moved_app app = record app { status = status }

  -- the commit stands also where the publisher then raises
  abbrev pub announces : Option EventType → Application → Result Application × Server Db Broker
  announces none app = (ok (moved_app app), record { db = moved_db app; world = s.world })
  announces (some event_type) app =
      if s.world.connected
      then (
        ok (moved_app app),
        record {
          db = moved_db app;
          world = record s.world {
            sent = s.world.sent ++ status_event event_type app user.id ∷ [];
          };
        },
      )
      else (
        err (runtime_error "EventPublisher not connected"),
        record { db = moved_db app; world = s.world },
      )

  abbrev answer : Result Application × Server Db Broker
  answer = patch_status stage_row log_row now k request user s

  abbrev pub Moves : Type 0
  Moves =
      (app : Application) × (user.role ≡ coordinator)
      × (first (has_id k) s.db.applications ≡ some app)
      × (answer ≡ announces (event_of_status request.status) app)

  event_case :
      (app : Application)
      → user.role ≡ coordinator
      → first (has_id k) s.db.applications ≡ some app
      → (o : Option EventType) → event_of_status request.status ≡ o
      → answer ≡ announces o app
  unfolding patch_status update_status set_status exit_stage add_stage log_audit publish_status
      publish
  event_case app r e none quiet = rw (r, e, quiet)
  event_case app r e (some event_type) loud = elim (Bool-cases s.world.connected) [
    | inl up ↦ rw (r, e, loud, up)
    | inr down ↦ rw (r, e, loud, down)
  ]

  found_case :
      (o : Option Application)
      → user.role ≡ coordinator
      → first (has_id k) s.db.applications ≡ o
      → Refused answer s ⊎ Moves
  unfolding patch_status update_status
  found_case none r e = inl (rw (r, e) ((http_exception 404 "Application not found", refl), refl))
  found_case (some app) r e =
      inr (app, r, e, event_case app r e (event_of_status request.status) refl)

  -- The route refuses and changes nothing, or a coordinator moves an application that exists.
  pub patch_status_cases : Refused answer s ⊎ Moves
  unfolding patch_status
  patch_status_cases = role_case user.role refl
    where
      role_case : (r : UserRole) → user.role ≡ r → Refused answer s ⊎ Moves
      role_case coordinator r = found_case (first (has_id k) s.db.applications) r refl
      role_case student r = inl (rw r ((http_exception 403 "Coordinator only", refl), refl))
