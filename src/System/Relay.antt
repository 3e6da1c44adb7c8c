-- ===== src/System/Relay.antt =====
-- Any run of the application service, and then the consumer of the communications service on what
-- the exchange holds.
use campus_hr_b.Prelude.{
  ℕ, ◌+◌, ◌^◌, ◌<◌, ◌≡◌, refl, inl, inr, String, Bool, Option, none, some, [], Bool-cases,
}
use campus_hr_b.Json.{get}
use campus_hr_b.Common.Enums.{CurrentUser, ApplicationStatus, shortlisted, rejected}
use campus_hr_b.Events.{Broker, EventType, application_shortlisted, application_rejected}
use campus_hr_b.Http.{HttpClient, Settings}
use campus_hr_b.Session.{Server, ok}
use campus_hr_b.Table.{update_where}
use campus_hr_b.Table.Count.{count}
use campus_hr_b.Table.Order.{AllRows}
use campus_hr_b.Table.Every.{AllRows-append_one, AllRows-found, AllRows-update_where}
use campus_hr_b.Application.Model.{
  Application, ApplicationCreate, StatusUpdate, Db as ApplicationDb, Stamp as ApplicationStamp,
  has_id,
}
use campus_hr_b.Application.Service.{submitted, status_event, event_of_status, new_application}
use campus_hr_b.Application.Api.{create_application, withdraw_application, patch_status}
use campus_hr_b.Application.Apply.{create_application_cases}
use campus_hr_b.Application.Withdraw.{withdraw_cases}
use campus_hr_b.Application.Status.{patch_status_cases, announces}
use campus_hr_b.Communications.Model.{
  Db as NoticeDb, Stamp as NoticeStamp, World as Outbox, sent_to,
}
use campus_hr_b.Communications.Consumer.{titles, consumer, consume, queued}
use campus_hr_b.Communications.Queue.{Tells, consume_told, told_queued, names}

-- students have UUIDs, and every message tells a student something
abbrev pub IsSound : Server ApplicationDb Broker → Type 0
IsSound s = AllRows (λ app. app.student_id < 2 ^ 128) s.db.applications × AllRows Tells s.world.sent

submitted-Tells : (app : Application) (k : ℕ) → k < 2 ^ 128 → Tells (submitted app k)
unfolding submitted get titles
submitted-Tells app k small = (k, _, _, small, refl, refl)

status_event-Tells :
    (status : ApplicationStatus) (event_type : EventType) (app : Application) (actor_id : ℕ)
    → event_of_status status ≡ some event_type
    → app.student_id < 2 ^ 128
    → Tells (status_event event_type app actor_id)
unfolding event_of_status status_event get titles
status_event-Tells shortlisted application_shortlisted app actor_id e small =
    (app.student_id, _, _, small, refl, refl)
status_event-Tells rejected application_rejected app actor_id e small =
    (app.student_id, _, _, small, refl, refl)
status_event-Tells _ _ app actor_id e small = cc

module _ (s : Server ApplicationDb Broker) (sound : IsSound s) where
  create_application-IsSound :
      (http_get : HttpClient) (settings : Settings) (a b c : ApplicationStamp) (user : CurrentUser)
      (request : ApplicationCreate)
      → user.id < 2 ^ 128
      → IsSound (create_application http_get settings a b c user request s).1
  unfolding new_application
  create_application-IsSound http_get settings a b c user request small =
      elim (create_application_cases http_get settings a b c user request s) [
        | inl refused ↦ rw refused.1 sound
        | inr (_, profile, _, _, _, done) ↦
            let app = new_application a user.id request profile in
            let rows =
              AllRows-append_one (λ app. app.student_id < 2 ^ 128) s.db.applications app sound.0
                small in
            rw done (elim (Bool-cases s.world.connected) [
              | inl up ↦ rw up (
                rows,
                AllRows-append_one Tells s.world.sent (submitted app user.id) sound.1
                    (submitted-Tells app user.id small),
              )
              | inr down ↦ rw down (rows, sound.1)
            ])
      ]

  rows_moved :
      (k : ℕ) (status : String)
      → AllRows
          (λ app. app.student_id < 2 ^ 128)
          (update_where (has_id k) (λ app. record app { status = status }) s.db.applications)
  rows_moved k status =
      AllRows-update_where (λ app. app.student_id < 2 ^ 128) (has_id k)
        (λ app. record app { status = status }) s.db.applications (λ a p. p) sound.0

  withdraw_application-IsSound :
      (row : ApplicationStamp) (k : ℕ) (user : CurrentUser)
      → IsSound (withdraw_application row k user s).1
  withdraw_application-IsSound row k user = elim (withdraw_cases row k user s) [
    | inl refused ↦ rw refused.1 sound
    | inr (app, _, e, _, done) ↦ rw done (rows_moved app.id "Withdrawn", sound.1)
  ]

  announces-IsSound :
      (a b : ApplicationStamp) (now k : ℕ) (request : StatusUpdate) (user : CurrentUser)
      (app : Application) (o : Option EventType)
      → event_of_status request.status ≡ o
      → app.student_id < 2 ^ 128
      → IsSound (announces a b now k request user s o app).1
  announces-IsSound a b now k request user app none e small = (rows_moved app.id _, sound.1)
  announces-IsSound a b now k request user app (some event_type) e small =
      elim (Bool-cases s.world.connected) [
        | inl up ↦ rw up (
          rows_moved app.id _,
          AllRows-append_one Tells s.world.sent (status_event event_type app user.id) sound.1
              (status_event-Tells request.status event_type app user.id e small),
        )
        | inr down ↦ rw down (rows_moved app.id _, sound.1)
      ]

  patch_status-IsSound :
      (a b : ApplicationStamp) (now k : ℕ) (request : StatusUpdate) (user : CurrentUser)
      → IsSound (patch_status a b now k request user s).1
  patch_status-IsSound a b now k request user = elim (patch_status_cases a b now k request user s) [
    | inl refused ↦ rw refused.1 sound
    | inr (app, _, e, done) ↦ rw done (
        announces-IsSound a b now k request user app (event_of_status request.status) refl
          (AllRows-found (λ app. app.student_id < 2 ^ 128) (has_id k) s.db.applications sound.0 e))
  ]

-- One request of a user who has a UUID, at any input, or a change of the connection to the broker.
pub data Step (s : Server ApplicationDb Broker) : Server ApplicationDb Broker → Type 0 where
  creates :
      (http_get : HttpClient) (settings : Settings) (a b c : ApplicationStamp) (user : CurrentUser)
      (request : ApplicationCreate)
      → user.id < 2 ^ 128
      → Step s (create_application http_get settings a b c user request s).1
  withdraws :
      (row : ApplicationStamp) (k : ℕ) (user : CurrentUser)
      → Step s (withdraw_application row k user s).1
  moves :
      (a b : ApplicationStamp) (now k : ℕ) (request : StatusUpdate) (user : CurrentUser)
      → Step s (patch_status a b now k request user s).1
  reconnects : (up : Bool) → Step s (record s { world = record s.world { connected = up } })

pub data Publishes (s : Server ApplicationDb Broker) : Server ApplicationDb Broker → Type 0 where
  here : Publishes s s
  next : {t u : Server ApplicationDb Broker} → Publishes s t → Step t u → Publishes s u

Step-IsSound : {s t : Server ApplicationDb Broker} → IsSound s → Step s t → IsSound t
Step-IsSound {s} v (creates http_get settings a b c user request small) =
    create_application-IsSound s v http_get settings a b c user request small
Step-IsSound {s} v (withdraws row k user) = withdraw_application-IsSound s v row k user
Step-IsSound {s} v (moves a b now k request user) = patch_status-IsSound s v a b now k request user
Step-IsSound v (reconnects up) = v

Publishes-IsSound : {s t : Server ApplicationDb Broker} → IsSound s → Publishes s t → IsSound t
Publishes-IsSound v here = v
Publishes-IsSound v (next steps step) = Step-IsSound (Publishes-IsSound v steps) step

-- Whatever the application service has served, with users who have UUIDs, since it held neither an
-- application nor a message, and where the queue of the communications service was bound before:
-- every message in the exchange reaches the queue of the communications service, its consumer gets
-- to the end of the queue without an error, and each student then has one more notification for
-- each message that names the student.
pub consume_published :
    (s t : Server ApplicationDb Broker) (rows : ℕ → NoticeStamp) (log_ids : ℕ → ℕ)
    (c : Server NoticeDb Outbox)
    → s.db.applications ≡ []
    → s.world.sent ≡ []
    → Publishes s t
    → (queued consumer t.world.sent ≡ t.world.sent)
      × ((d : Server NoticeDb Outbox) × (consume consumer rows log_ids 0
              (queued consumer t.world.sent)
              c
            ≡ (ok tt, d))
          × ((u : ℕ)
              → u < 2 ^ 128
              → count (sent_to u) d.db.notifications
                ≡ count (sent_to u) c.db.notifications + count (names u) t.world.sent))
consume_published s t rows log_ids c no_apps no_sent steps =
    let sound : IsSound t = Publishes-IsSound (rw (no_apps, no_sent) (tt, tt)) steps in
    let all = told_queued t.world.sent sound.1 in
    (all, rw all (consume_told rows log_ids 0 t.world.sent c sound.1))
