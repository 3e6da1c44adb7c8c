-- ===== src/Application/Api.antt =====
-- services/application-service/app/api/applications.py: the routes, behind the user whom
-- `get_current_user` gives and a session that `get_db` opens and closes.
use campus_hr_b.Prelude.{ℕ, Bool, List, not, ◌&&◌, ◌==◌, if◌then◌else◌}
use campus_hr_b.Common.Enums.{CurrentUser, is_student, is_coordinator}
use campus_hr_b.Http.{HttpClient, Settings}
use campus_hr_b.Session.{http_exception, pure, or_raise, raise_if, ◌>>=◌, ◌>>◌, query, with_db}
use campus_hr_b.Table.{first, filter, order_by_desc}
use campus_hr_b.Application.Model.{
  Application, ApplicationCreate, StatusUpdate, TimelineResponse, Stamp, Handler, Route, has_id,
  stage_of,
}
use campus_hr_b.Application.Service.{apply, withdraw, update_status}

unfoldable pub create_application :
    HttpClient
    → Settings
    → Stamp
    → Stamp
    → Stamp
    → CurrentUser
    → ApplicationCreate
    → Route Application
create_application http_get settings app_row stage_row log_row user request = with_db do
  raise_if (not (is_student user.role)) (http_exception 403 "Student only")
  apply http_get settings app_row stage_row log_row user.id request

-- `Application.student_id == user.id`
abbrev pub owned_by : ℕ → Application → Bool
owned_by student_id app = app.student_id == student_id

-- the rows of the query, before they are ordered
unfoldable pub visible_to : CurrentUser → List Application → List Application
visible_to user apps = if is_student user.role then filter (owned_by user.id) apps else apps

unfoldable pub list_applications : CurrentUser → Route (List Application)
list_applications user =
    with_db (query λ db. order_by_desc (λ app. app.created_at) (visible_to user db.applications))

-- the guards that `get_application` and `timeline` share
unfoldable pub visible_application : ℕ → CurrentUser → Handler Application
visible_application application_id user = do
  found ← query λ db. first (has_id application_id) db.applications
  app ← or_raise found (http_exception 404 "Not found")
  raise_if (is_student user.role && not (app.student_id == user.id))
      (http_exception 403 "Forbidden")
  pure app

unfoldable pub get_application : ℕ → CurrentUser → Route Application
get_application application_id user = with_db (visible_application application_id user)

unfoldable pub withdraw_application : Stamp → ℕ → CurrentUser → Route Application
withdraw_application log_row application_id user = with_db do
  raise_if (not (is_student user.role)) (http_exception 403 "Student only")
  withdraw log_row application_id user.id

unfoldable pub patch_status : Stamp → Stamp → ℕ → ℕ → StatusUpdate → CurrentUser → Route Application
patch_status stage_row log_row now application_id request user = with_db do
  raise_if (not (is_coordinator user.role)) (http_exception 403 "Coordinator only")
  update_status stage_row log_row now application_id user.id request

unfoldable pub timeline : ℕ → CurrentUser → Route TimelineResponse
timeline application_id user = with_db do
  app ← visible_application application_id user
  stages ← query λ db. filter (stage_of app.id) db.stages
  pure (record { application = app; stages = stages })
