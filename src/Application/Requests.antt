-- ===== src/Application/Requests.antt =====
-- Every sequence of requests keeps application_db well formed, whatever the routes answer.
use campus_hr_b.Prelude.{
  ℕ, String, List, ◌≡◌, refl, inl, inr, Option, none, some, arith, Bool-cases,
}
use mathlib.Core.Path.{subst}
use campus_hr_b.Common.Enums.{CurrentUser, application_status_value}
use campus_hr_b.Events.{Broker, EventType}
use campus_hr_b.Http.{HttpClient, Settings}
use campus_hr_b.Session.{Server}
use campus_hr_b.Table.{first}
use campus_hr_b.Table.Count.{count, count_zero_of_missing, found_passes}
use campus_hr_b.Application.Model.{
  Application, ApplicationCreate, StatusUpdate, Db, Stamp, has_id, is_stage,
}
use campus_hr_b.Application.Service.{
  new_application, registration_stage, status_stage, event_of_status,
}
use campus_hr_b.Application.Audit.{status_logged}
use campus_hr_b.Application.Api.{create_application, withdraw_application, patch_status}
use campus_hr_b.Application.Invariant.{IsValid}
use campus_hr_b.Application.Effects.{withdrawn-IsValid, moved-IsValid}
use campus_hr_b.Application.Arrival.{applied-IsValid}
use campus_hr_b.Application.Withdraw.{withdraw_cases, withdrawn_log}
use campus_hr_b.Application.Apply.{create_application_cases, created_log, submits, applied_db}
use campus_hr_b.Application.Status.{patch_status_cases, changed_log, moved_db, announces}

-- the row that a key finds has that key
pub found_own :
    (k : ℕ) (apps : List Application) {app : Application}
    → first (has_id k) apps ≡ some app
    → first (has_id app.id) apps ≡ some app
found_own k apps {app} e =
    let same : k ≡ app.id = ground (arith, found_passes (has_id k) apps e) in
    subst (λ i. first (has_id i) apps ≡ some app) same e

withdrawn_logged : (row : Stamp) (k : ℕ) → status_logged (withdrawn_log row k) ≡ some "Withdrawn"
unfolding status_logged
withdrawn_logged row k = refl

changed_logged :
    (row : Stamp) (app : Application) (status : String)
    → status_logged (changed_log row app status) ≡ some status
unfolding status_logged
changed_logged row app status = refl

created_logged :
    (row : Stamp) (app : Application) → status_logged (created_log row app) ≡ some app.status
unfolding status_logged
created_logged row app = refl

module _ (s : Server Db Broker) where
  pub announces_db :
      (stage_row log_row : Stamp) (now k : ℕ) (request : StatusUpdate) (user : CurrentUser)
      (o : Option EventType) (app : Application)
      → (announces stage_row log_row now k request user s o app).1.db
        ≡ moved_db stage_row log_row now k request user s app
  announces_db stage_row log_row now k request user none app = refl
  announces_db stage_row log_row now k request user (some e) app =
      elim (Bool-cases s.world.connected) [ inl up ↦ rw up | inr down ↦ rw down ]

module _ (s : Server Db Broker) (valid : IsValid s.db) where
  pub withdraw_application-IsValid :
      (row : Stamp) (k : ℕ) (user : CurrentUser) → IsValid (withdraw_application row k user s).1.db
  withdraw_application-IsValid row k user = elim (withdraw_cases row k user s) [
    | inl refused ↦ rw refused.1 valid
    | inr (app, _, e, _, done) ↦ rw done (
        withdrawn-IsValid s.db app.id (withdrawn_log row app.id) "Withdrawn" valid
          (found_own k s.db.applications e) refl (withdrawn_logged row app.id))
  ]

  pub patch_status-IsValid :
      (stage_row log_row : Stamp) (now k : ℕ) (request : StatusUpdate) (user : CurrentUser)
      → count (is_stage stage_row.id) s.db.stages ≡ 0
      → IsValid (patch_status stage_row log_row now k request user s).1.db
  unfolding status_stage
  patch_status-IsValid stage_row log_row now k request user fresh =
      elim (patch_status_cases stage_row log_row now k request user s) [
        | inl refused ↦ rw refused.1 valid
        | inr (app, _, e, done) ↦
            let status = application_status_value request.status in
            rw done (
              rw
                (announces_db s stage_row log_row now k request user
                  (event_of_status request.status) app)
                (moved-IsValid s.db app.id (changed_log log_row app status) status now
                  (status_stage stage_row app.id status user.id) valid
                  (found_own k s.db.applications e) refl (changed_logged log_row app status) refl
                  refl fresh))
      ]

  submits_db :
      (http_get : HttpClient) (settings : Settings) (app_row stage_row log_row : Stamp)
      (user : CurrentUser) (request : ApplicationCreate) (app : Application)
      → (submits http_get settings app_row stage_row log_row user request s app).1.db
        ≡ applied_db http_get settings app_row stage_row log_row user request s app
  submits_db http_get settings app_row stage_row log_row user request app =
      elim (Bool-cases s.world.connected) [ inl up ↦ rw up | inr down ↦ rw down ]

  pub create_application-IsValid :
      (http_get : HttpClient) (settings : Settings) (app_row stage_row log_row : Stamp)
      (user : CurrentUser) (request : ApplicationCreate)
      → count (has_id app_row.id) s.db.applications ≡ 0
      → count (is_stage stage_row.id) s.db.stages ≡ 0
      → IsValid (create_application http_get settings app_row stage_row log_row user request s).1.db
  unfolding new_application registration_stage
  create_application-IsValid http_get settings app_row stage_row log_row user request fresh
        fresh_stage =
      elim (create_application_cases http_get settings app_row stage_row log_row user request s) [
        | inl refused ↦ rw refused.1 valid
        | inr (body, profile, _, _, new, done) ↦
            let app = new_application app_row user.id request profile in
            rw done (
              rw (submits_db http_get settings app_row stage_row log_row user request app) (
                applied-IsValid s.db valid app (registration_stage stage_row app.id)
                  (created_log log_row app) fresh fresh_stage
                  (count_zero_of_missing _ s.db.applications new) refl refl refl
                  (created_logged log_row app)))
      ]

-- One request, at any input. A row that is added has a key of its own (uuid4), and the broker may
-- change between requests.
pub data Step (s : Server Db Broker) : Server Db Broker → Type 0 where
  creates :
      (http_get : HttpClient) (settings : Settings) (app_row stage_row log_row : Stamp)
      (user : CurrentUser) (request : ApplicationCreate)
      → count (has_id app_row.id) s.db.applications ≡ 0
      → count (is_stage stage_row.id) s.db.stages ≡ 0
      → Step s (create_application http_get settings app_row stage_row log_row user request s).1
  withdraws :
      (row : Stamp) (k : ℕ) (user : CurrentUser) → Step s (withdraw_application row k user s).1
  moves :
      (stage_row log_row : Stamp) (now k : ℕ) (request : StatusUpdate) (user : CurrentUser)
      → count (is_stage stage_row.id) s.db.stages ≡ 0
      → Step s (patch_status stage_row log_row now k request user s).1
  broker_changes : (w : Broker) → Step s (record s { world = w })

pub data Reach (s : Server Db Broker) : Server Db Broker → Type 0 where
  here : Reach s s
  next : {t u : Server Db Broker} → Reach s t → Step t u → Reach s u

pub Step-IsValid : {s t : Server Db Broker} → Step s t → IsValid s.db → IsValid t.db
Step-IsValid {s} (creates http_get settings a b c user request f g) valid =
    create_application-IsValid s valid http_get settings a b c user request f g
Step-IsValid {s} (withdraws row k user) valid = withdraw_application-IsValid s valid row k user
Step-IsValid {s} (moves a b now k request user f) valid =
    patch_status-IsValid s valid a b now k request user f
Step-IsValid (broker_changes w) valid = valid

-- From a well-formed application_db every sequence of requests leads to a well-formed one: keys are
-- unique, no student has two applications to one opportunity, each application has exactly one open
-- stage, and its status is the one that its audit log ends with.
pub Reach-IsValid : {s t : Server Db Broker} → IsValid s.db → Reach s t → IsValid t.db
Reach-IsValid valid here = valid
Reach-IsValid valid (next r step) = Step-IsValid step (Reach-IsValid valid r)
