-- ===== src/Application/Lasting.antt =====
-- An application uses up the student's chance, whatever is served after it: `create_application`
-- among later requests.
use campus_hr_b.Prelude.{ℕ, ◌≤◌, ◌≡◌, ◌≢◌, String, refl, inl, inr, arith}
use campus_hr_b.Common.Enums.{CurrentUser, application_status_value}
use campus_hr_b.Events.{Broker}
use campus_hr_b.Json.{Json}
use campus_hr_b.Http.{HttpClient, Settings}
use campus_hr_b.Session.{Server, Refused}
use campus_hr_b.Table.Count.{count, count-append_one, count_zero_of_missing}
use campus_hr_b.Table.Rows.{count-update_where_same}
use campus_hr_b.Application.Model.{ApplicationCreate, Db, Stamp, has_id, applied_by}
use campus_hr_b.Application.Service.{new_application, event_of_status}
use campus_hr_b.Application.Api.{create_application}
use campus_hr_b.Application.Effects.{with_status}
use campus_hr_b.Application.Apply.{submits, create_application_cases}
use campus_hr_b.Application.Withdraw.{withdraw_cases}
use campus_hr_b.Application.Status.{patch_status_cases}
use campus_hr_b.Application.Submission.{submits_applications}
use campus_hr_b.Application.Requests.{
  Step, Reach, creates, withdraws, moves, broker_changes, here, next, announces_db,
}

-- the student has an application to the opportunity
abbrev Applied : ℕ → ℕ → Db → Type 0
Applied o u db = 1 ≤ count (applied_by o u) db.applications

with_status-Applied :
    (o u k : ℕ) (status : String) (db : Db) → Applied o u db → Applied o u (with_status k status db)
with_status-Applied o u k status db h =
    rw
      (count-update_where_same (applied_by o u) (has_id k) (λ a. record a { status = status })
        db.applications (λ a e. refl))
      h

Step-Applied : (o u : ℕ) {s t : Server Db Broker} → Step s t → Applied o u s.db → Applied o u t.db
Step-Applied o u {s} (creates http_get settings a b c user request f g) h =
    elim (create_application_cases http_get settings a b c user request s) [
      | inl refused ↦ rw refused.1 h
      | inr (_, profile, _, _, _, done) ↦
          let app = new_application a user.id request profile in
          rw done (
            rw (submits_applications http_get settings a b c user request s app)
              (omega (arith, h, count-append_one (applied_by o u) s.db.applications app)))
    ]
Step-Applied o u {s} (withdraws row k user) h = elim (withdraw_cases row k user s) [
  | inl refused ↦ rw refused.1 h
  | inr (app, _, _, _, done) ↦ rw done (with_status-Applied o u app.id "Withdrawn" s.db h)
]
Step-Applied o u {s} (moves a b now k request user f) h =
    elim (patch_status_cases a b now k request user s) [
      | inl refused ↦ rw refused.1 h
      | inr (app, _, _, done) ↦
          let status = application_status_value request.status in
          rw done (
            rw (announces_db s a b now k request user (event_of_status request.status) app)
              (with_status-Applied o u app.id status s.db h))
    ]
Step-Applied o u (broker_changes w) h = h

Reach-Applied : (o u : ℕ) {s t : Server Db Broker} → Reach s t → Applied o u s.db → Applied o u t.db
Reach-Applied o u here h = h
Reach-Applied o u (next r step) h = Step-Applied o u step (Reach-Applied o u r h)

-- who has applied is refused
turned_away :
    (http_get : HttpClient) (settings : Settings) (a b c : Stamp) (user : CurrentUser)
    (request : ApplicationCreate) (s : Server Db Broker)
    → Applied request.opportunity_id user.id s.db
    → Refused (create_application http_get settings a b c user request s) s
turned_away http_get settings a b c user request s h =
    elim (create_application_cases http_get settings a b c user request s) [
      | inl refused ↦ refused
      | inr (_, _, _, _, new, _) ↦
          absurd (omega (arith, h, count_zero_of_missing _ s.db.applications new))
    ]

-- A request that has changed anything, also one that was answered with an error because the
-- broker was away, uses up the student's application: whatever requests of anybody are served after
-- it, and whatever the broker does, each later request of the same student for the same opportunity
-- is refused and changes nothing.
pub create_application_once :
    (http_get : HttpClient) (settings : Settings) (app_row stage_row log_row : Stamp)
    (user : CurrentUser) (request : ApplicationCreate) (s u : Server Db Broker)
    → (create_application http_get settings app_row stage_row log_row user request s).1 ≢ s
    → Reach (create_application http_get settings app_row stage_row log_row user request s).1 u
    → (http_get' : HttpClient) (settings' : Settings) (a b c : Stamp) (request' : ApplicationCreate)
    → request'.opportunity_id ≡ request.opportunity_id
    → Refused (create_application http_get' settings' a b c user request' u) u
unfolding new_application
create_application_once http_get settings app_row stage_row log_row user request s u changed later
      http_get' settings' a b c request' same =
    elim (create_application_cases http_get settings app_row stage_row log_row user request s) [
      | inl refused ↦ absurd (changed refused.1)
      | inr (_, profile, _, _, _, done) ↦
          turned_away http_get' settings' a b c user request' u
            (rw same (Reach-Applied request.opportunity_id user.id later (rw done (taken profile))))
    ]
  where
    taken :
        (profile : Json)
        → 1
          ≤ count
              (applied_by request.opportunity_id user.id)
              (submits http_get settings app_row stage_row log_row user request s
                (new_application app_row user.id request profile)).1.db.applications
    taken profile =
        let app = new_application app_row user.id request profile in
        rw (submits_applications http_get settings app_row stage_row log_row user request s app) (
          ground (
            arith,
            count-append_one (applied_by request.opportunity_id user.id) s.db.applications app,
          ))
