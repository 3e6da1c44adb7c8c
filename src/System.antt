-- ===== src/System.antt =====
-- The application service and the communications service together: what `create_application` of the
-- one publishes is delivered to `handle_domain_event` of the other.
pub mod Relay
use campus_hr_b.Prelude.{ℕ, String, ◌<◌, ◌^◌, ◌≡◌, refl, [], ◌∷◌, ◌++◌, some}
use campus_hr_b.Json.{text, get}
use campus_hr_b.Common.Enums.{CurrentUser}
use campus_hr_b.Common.Uuid.{to_text}
use campus_hr_b.Events.{Broker, DomainEvent}
use campus_hr_b.Http.{HttpClient, Settings}
use campus_hr_b.Session.{Server, ok}
use campus_hr_b.Application.Model.{
  Application, ApplicationCreate, Db as ApplicationDb, Stamp as ApplicationStamp,
}
use campus_hr_b.Application.Service.{submitted}
use campus_hr_b.Application.Api.{create_application}
use campus_hr_b.Application.Submission.{create_application_success}
use campus_hr_b.Communications.Model.{Db as NoticeDb, Stamp as NoticeStamp, World as Outbox}
use campus_hr_b.Communications.Service.{new_notification}
use campus_hr_b.Communications.Consumer.{titles, consumer, deliver}
use campus_hr_b.Communications.Delivery.{deliver_student, notified_db}

abbrev pub received : String
received = "Your application was submitted successfully."

titled :
    (app : Application) (student_id : ℕ)
    → titles (submitted app student_id).event_type (submitted app student_id).payload
      ≡ some ("Application Submitted", text received)
unfolding titles submitted
titled app student_id = refl

addressed :
    (app : Application) (student_id : ℕ)
    → get "student_id" (submitted app student_id).payload ≡ some (text (to_text student_id))
unfolding get submitted
addressed app student_id = refl

module _ (http_get : HttpClient) (settings : Settings)
    (app_row stage_row log_row : ApplicationStamp) (user : CurrentUser)
    (request : ApplicationCreate) (s : Server ApplicationDb Broker) where
  -- An application that is answered with success puts one event into the exchange, and where that
  -- event is delivered the student who applied, and nobody else, gets one notification that the
  -- application was received, with one delivery log, and nothing else changes in communications_db.
  pub create_application_notifies :
      (app : Application) (t : Server ApplicationDb Broker) (note_row : NoticeStamp) (log_id : ℕ)
      (c : Server NoticeDb Outbox)
      → create_application http_get settings app_row stage_row log_row user request s ≡ (ok app, t)
      → user.id < 2 ^ 128
      → (event : DomainEvent) × (t.world.sent ≡ s.world.sent ++ event ∷ [])
        × (deliver consumer note_row log_id event c ≡ (
          ok tt,
          record c {
            db =
                notified_db
                  (new_notification note_row user.id "APPLICATION_SUBMITTED" "Application Submitted"
                    received)
                  log_id
                  c.db;
          },
        ))
  unfolding submitted
  create_application_notifies app t note_row log_id c h small =
      let (_, _, _, _, _, _, sent) =
        create_application_success http_get settings app_row stage_row log_row user request s app t
          h in
      (
        submitted app user.id,
        sent,
        deliver_student note_row log_id (submitted app user.id) user.id "Application Submitted"
            received c small (addressed app user.id) (titled app user.id),
      )
