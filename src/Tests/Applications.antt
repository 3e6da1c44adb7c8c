-- ===== src/Tests/Applications.antt =====
-- The application service on a small campus: student 7 applies to opportunity 30, and coordinator
-- 9 shortlists the application.
use campus_hr_b.Prelude.{
  ℕ, ◌+◌, ◌^◌, ◌<◌, ◌≡◌, ◌≢◌, refl, Bool, true, false, none, some, List, [], ◌∷◌, ◌++◌, arith, ◌&&◌,
  ap,
}
use campus_hr_b.Json.{Json, obj, end, entry, text}
use campus_hr_b.Common.Uuid.{to_text}
use campus_hr_b.Common.Enums.{CurrentUser, student, coordinator, shortlisted}
use campus_hr_b.Events.{Broker, application_submitted, DomainEvent, publish}
use campus_hr_b.Http.{HttpClient, Settings, reply}
use campus_hr_b.Session.{Server, ok, err, runtime_error, Refused}
use campus_hr_b.Table.{first, filter, update_where}
use campus_hr_b.Table.Count.{count}
use campus_hr_b.Table.Order.{IsNewestFirst}
use campus_hr_b.Application.Model.{
  Application, ApplicationCreate, StatusUpdate, TimelineResponse, Db, Stamp, has_id, applied_by,
  open_stage_of, stage_of, is_stage,
}
use campus_hr_b.Application.Service.{
  apply, withdraw, update_status, fetch_opportunity, opportunity_of, opportunity_url, fetch_profile,
  profile_of, add_application, add_stage, set_status, exit_stage, log_audit, publish_status,
  event_of_status, new_application, registration_stage, status_stage,
}
use campus_hr_b.Application.Api.{
  create_application, withdraw_application, patch_status, list_applications, timeline,
  visible_application,
}
use campus_hr_b.Application.Audit.{last_status}
use campus_hr_b.Application.Invariant.{IsValid}
use campus_hr_b.Application.Requests.{
  Step, here, next, creates, moves, withdraws, broker_changes, Reach-IsValid, Step-IsValid,
}
use campus_hr_b.Application.Submission.{create_application_success, withdraw_application_success}
use campus_hr_b.Application.Lasting.{create_application_once}
use campus_hr_b.System.{create_application_notifies, received}
use campus_hr_b.Communications.Model.{Db as NoticeDb, Stamp as NoticeStamp, World as Outbox}
use campus_hr_b.Communications.Service.{new_notification}
use campus_hr_b.Communications.Consumer.{consumer, deliver}
use campus_hr_b.Communications.Delivery.{notified_db}
use campus_hr_b.System.Relay.{consume_published}
use campus_hr_b.System.Relay
use campus_hr_b.Communications.Consumer.{consume, queued}
use campus_hr_b.Communications.Queue.{names}
use campus_hr_b.Communications.Model.{sent_to}
use campus_hr_b.Application.Progress.{patch_status_success, told}
use campus_hr_b.Application.Listing.{list_applications_visible, may_see, timeline_shows}

abbrev rahul : CurrentUser
rahul = record { id = 7; role = student }

abbrev staff : CurrentUser
staff = record { id = 9; role = coordinator }

-- both services answer every GET
abbrev network : HttpClient
network = λ url. reply 200 (some (obj end))

abbrev urls : Settings
urls = record {
  identity_service_url = "http://identity";
  opportunity_service_url = "http://opportunity";
}

abbrev no_rows : Db
no_rows = record { applications = []; stages = []; audit_logs = [] }

abbrev start : Server Db Broker
start = record { db = no_rows; world = record { connected = true; sent = [] } }

-- the broker is away
abbrev cut_off : Server Db Broker
cut_off = record { db = no_rows; world = record { connected = false; sent = [] } }

abbrev row : ℕ → Stamp
row k = record { id = k; now = 100 }

abbrev request : ApplicationCreate
request = record { opportunity_id = 30; overrides = end; resume_url = none }

abbrev made : Application
made = new_application (row 1) 7 request (obj end)

abbrev after_create : Server Db Broker
after_create = (create_application network urls (row 1) (row 2) (row 3) rahul request start).1

create_runs :
    create_application network urls (row 1) (row 2) (row 3) rahul request start
    ≡ (ok made, after_create)
unfolding create_application apply fetch_opportunity opportunity_of fetch_profile profile_of
    add_application add_stage log_audit publish first
create_runs = refl

no_rows-IsValid : IsValid no_rows
unfolding count first last_status
no_rows-IsValid = record {
  one_row = λ k. omega arith;
  one_stage_row = λ k. omega arith;
  one_application = λ o s. omega arith;
  one_open_stage = λ k. refl;
  audited = λ k. refl;
}

abbrev shortlist : StatusUpdate
shortlist = record { status = shortlisted }

abbrev after_move : Server Db Broker
after_move = (patch_status (row 4) (row 5) 200 1 shortlist staff after_create).1

fresh_create : count (has_id 1) start.db.applications ≡ 0
unfolding count
fresh_create = refl

fresh_create_stage : count (is_stage 2) start.db.stages ≡ 0
unfolding count
fresh_create_stage = refl

fresh_move : count (is_stage 4) after_create.db.stages ≡ 0
unfolding count create_application apply fetch_opportunity opportunity_of fetch_profile profile_of
    add_application add_stage log_audit publish first registration_stage
fresh_move = refl

creates_one : Step start after_create
creates_one =
    creates network urls (row 1) (row 2) (row 3) rahul request fresh_create fresh_create_stage

after_create-IsValid : IsValid after_create.db
after_create-IsValid = Step-IsValid creates_one no_rows-IsValid

-- one application is made, moved on and withdrawn
Reach-IsValid_example : IsValid (withdraw_application (row 6) 1 rahul after_move).1.db
Reach-IsValid_example = Reach-IsValid no_rows-IsValid (
    next (next (next here creates_one) (moves (row 4) (row 5) 200 1 shortlist staff fresh_move))
      (withdraws (row 6) 1 rahul))

create_application_success_example :
    (rahul.role ≡ student)
    × ((body : Json) × (network (opportunity_url urls 30) ≡ reply 200 (some body)))
    × (count (applied_by 30 7) start.db.applications ≡ 0)
    × ((profile : Json) × (made ≡ record {
      id = 1;
      opportunity_id = 30;
      student_id = 7;
      status = "Applied";
      resume_url = none;
      profile_snapshot = some profile;
      overrides = some end;
      created_at = 100;
    }))
    × (after_create.db.applications ≡ start.db.applications ++ made ∷ [])
    × (after_create.db.stages
        ≡ start.db.stages
          ++ record {
            id = 2;
            application_id = made.id;
            stage_name = "Registration";
            entered_at = 100;
            exited_at = none;
            actor_id = none;
          }
            ∷ [])
    × (after_create.world.sent
        ≡ start.world.sent
          ++ record {
            event_type = application_submitted;
            payload = entry "application_id" (text (to_text made.id)) (
                entry "student_id"
                  (text (to_text 7))
                  (entry "opportunity_id" (text (to_text made.opportunity_id)) end));
            actor_id = some 7;
            correlation_id = none;
          }
            ∷ [])
create_application_success_example =
    create_application_success network urls (row 1) (row 2) (row 3) rahul request start made
      after_create create_runs

-- with the broker away the call fails, and the application is there
abbrev after_failure : Server Db Broker
after_failure = (create_application network urls (row 1) (row 2) (row 3) rahul request cut_off).1

failure_runs :
    create_application network urls (row 1) (row 2) (row 3) rahul request cut_off
    ≡ (err (runtime_error "EventPublisher not connected"), record cut_off { db = after_create.db })
unfolding create_application apply fetch_opportunity opportunity_of fetch_profile profile_of
    add_application add_stage log_audit publish first
failure_runs = refl

failure_changed : after_failure ≢ cut_off
unfolding create_application apply fetch_opportunity opportunity_of fetch_profile profile_of
    add_application add_stage log_audit publish first
failure_changed e = cc (ap (λ (t : Server Db Broker). t.db.applications) e)

-- the broker is back, and the student withdraws
abbrev after_withdrawal : Server Db Broker
after_withdrawal =
    (withdraw_application (row 6) 1 rahul (record after_failure { world = start.world })).1

create_application_once_example :
    Refused
      (create_application network urls (row 4) (row 5) (row 6) rahul request after_withdrawal)
      after_withdrawal
create_application_once_example =
    create_application_once network urls (row 1) (row 2) (row 3) rahul request cut_off
      after_withdrawal failure_changed
      (next (next here (broker_changes start.world)) (withdraws (row 6) 1 rahul)) network urls
      (row 4) (row 5) (row 6) request refl

abbrev moved : Application
moved = record made { status = "Shortlisted" }

move_runs : patch_status (row 4) (row 5) 200 1 shortlist staff after_create ≡ (ok moved, after_move)
unfolding create_application apply fetch_opportunity opportunity_of fetch_profile profile_of
    add_application add_stage log_audit publish first patch_status update_status set_status
    exit_stage publish_status event_of_status update_where new_application registration_stage
move_runs = refl

patch_status_success_example :
    (staff.role ≡ coordinator)
    × (moved.id ≡ 1)
    × (moved.status ≡ "Shortlisted")
    × (first (has_id 1) after_move.db.applications ≡ some moved)
    × (first (open_stage_of 1) after_move.db.stages ≡ some (status_stage (row 4) 1 moved.status 9))
    × (after_move.world.sent ≡ after_create.world.sent ++ told shortlisted moved 9)
    × ((j : ℕ)
        → j ≢ 1
        → (first (has_id j) after_move.db.applications
            ≡ first (has_id j) after_create.db.applications)
          × (filter (stage_of j) after_move.db.stages ≡ filter (stage_of j) after_create.db.stages))
patch_status_success_example =
    patch_status_success (row 4) (row 5) 200 1 shortlist staff after_create moved after_move
      after_create-IsValid move_runs

abbrev gone : Application
gone = record made { status = "Withdrawn" }

abbrev after_withdraw : Server Db Broker
after_withdraw = (withdraw_application (row 6) 1 rahul after_create).1

withdraw_runs : withdraw_application (row 6) 1 rahul after_create ≡ (ok gone, after_withdraw)
unfolding create_application apply fetch_opportunity opportunity_of fetch_profile profile_of
    add_application add_stage log_audit publish first withdraw_application withdraw set_status
    new_application
withdraw_runs = refl

withdraw_application_success_example :
    (rahul.role ≡ student)
    × (gone.student_id ≡ 7)
    × (gone.status ≡ "Withdrawn")
    × (first (has_id 1) after_withdraw.db.applications ≡ some gone)
    × ((j : ℕ)
        → j ≢ 1
        → first (has_id j) after_withdraw.db.applications
          ≡ first (has_id j) after_create.db.applications)
    × (after_withdraw.db.stages ≡ after_create.db.stages)
    × (after_withdraw.world ≡ after_create.world)
withdraw_application_success_example =
    withdraw_application_success (row 6) 1 rahul after_create gone after_withdraw withdraw_runs

list_applications_visible_example :
    (rows : List Application) × (list_applications rahul after_create ≡ (ok rows, after_create))
    × IsNewestFirst (λ app. app.created_at) rows
    × ((p : Application → Bool)
        → count p rows ≡ count (λ a. may_see rahul a && p a) after_create.db.applications)
list_applications_visible_example = list_applications_visible rahul after_create

abbrev seen : TimelineResponse
seen = record { application = made; stages = registration_stage (row 2) 1 ∷ [] }

timeline_runs : timeline 1 rahul after_create ≡ (ok seen, after_create)
unfolding create_application apply fetch_opportunity opportunity_of fetch_profile profile_of
    add_application add_stage log_audit publish first timeline visible_application filter
    new_application registration_stage
timeline_runs = refl

timeline_shows_example :
    (after_create ≡ after_create)
    × (seen.application.id ≡ 1)
    × (first (has_id 1) after_create.db.applications ≡ some seen.application)
    × (seen.stages ≡ filter (stage_of 1) after_create.db.stages)
    × (rahul.role ≡ student → seen.application.student_id ≡ 7)
timeline_shows_example = timeline_shows rahul after_create 1 seen after_create timeline_runs

abbrev inbox : Server NoticeDb Outbox
inbox = record {
  db = record { queries = []; messages = []; notifications = []; delivery_logs = [] };
  world = tt;
}

abbrev note_row : NoticeStamp
note_row = record { id = 70; now = 101 }

create_application_notifies_example :
    (event : DomainEvent) × (after_create.world.sent ≡ [] ++ event ∷ [])
    × (deliver consumer note_row 71 event inbox ≡ (
      ok tt,
      record inbox {
        db =
            notified_db
              (new_notification note_row 7 "APPLICATION_SUBMITTED" "Application Submitted" received)
              71
              inbox.db;
      },
    ))
create_application_notifies_example =
    create_application_notifies network urls (row 1) (row 2) (row 3) rahul request start made
      after_create note_row 71 inbox create_runs (omega arith)

notes : ℕ → NoticeStamp
notes k = record { id = k; now = 200 }

consume_published_example :
    (queued consumer after_create.world.sent ≡ after_create.world.sent)
    × ((d : Server NoticeDb Outbox) × (consume consumer notes
            (λ k. k)
            0
            (queued consumer after_create.world.sent)
            inbox
          ≡ (ok tt, d))
        × ((u : ℕ)
            → u < 2 ^ 128
            → count (sent_to u) d.db.notifications
              ≡ count (sent_to u) inbox.db.notifications + count (names u) after_create.world.sent))
consume_published_example =
    consume_published start after_create notes (λ k. k) inbox refl refl
      (Relay.next Relay.here
        (Relay.creates network urls (row 1) (row 2) (row 3) rahul request (omega arith)))
