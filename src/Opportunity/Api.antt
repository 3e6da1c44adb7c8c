-- ===== src/Opportunity/Api.antt =====
-- services/opportunity-service/app/api/opportunities.py, but for the upload of files, and the run
-- of `process_deadlines` in a session of its own (main.py).
use campus_hr_b.Prelude.{ℕ, String, Option, List, not, ◌&&◌, ◌||◌, ◌==◌}
use campus_hr_b.Json.{ℤ}
use campus_hr_b.Common.Enums.{CurrentUser, is_student, is_coordinator}
use campus_hr_b.Http.{HttpClient, Settings}
use campus_hr_b.Session.{http_exception, raise_if, ◌>>=◌, ◌>>◌, query, with_db}
use campus_hr_b.Table.{filter}
use campus_hr_b.Opportunity.Model.{
  Opportunity, Registration, OpportunityCreate, OpportunityUpdate, RegistrationCreate, Stamp, Route,
  registered_for,
}
use campus_hr_b.Opportunity.Service.{
  Office, create_opportunity, list_opportunities, get_opportunity, update_opportunity,
  register_student, generate_excel_export, process_deadlines,
}

unfoldable pub create_opp :
    Stamp → (ℕ → ℕ) → (ℕ → ℕ) → OpportunityCreate → CurrentUser → Route Opportunity
create_opp row field_ids rule_ids request user = with_db do
  raise_if (not (is_coordinator user.role)) (http_exception 403 "Coordinator only")
  create_opportunity row field_ids rule_ids user.id request

unfoldable pub list_opps : Route (List Opportunity)
list_opps = with_db list_opportunities

unfoldable pub get_opp : ℕ → Route Opportunity
get_opp opportunity_id = with_db (get_opportunity opportunity_id)

unfoldable pub patch_opp : ℕ → OpportunityUpdate → CurrentUser → Route Opportunity
patch_opp opportunity_id request user = with_db do
  raise_if (not (is_coordinator user.role)) (http_exception 403 "Coordinator only")
  update_opportunity opportunity_id user.id request

unfoldable pub create_registration :
    HttpClient
    → Settings
    → (String → Option ℤ)
    → Stamp
    → ℕ
    → RegistrationCreate
    → CurrentUser
    → Route Registration
create_registration http_get settings parse_float row opportunity_id request user = with_db do
  raise_if (not (is_student user.role)) (http_exception 403 "Student only")
  register_student http_get settings parse_float row opportunity_id user.id request

unfoldable pub list_registrations : ℕ → CurrentUser → Route (List Registration)
list_registrations opportunity_id user = with_db do
  opp ← get_opportunity opportunity_id
  raise_if (is_coordinator user.role && not (opp.coordinator_id == user.id))
      (http_exception 403 "Not your opportunity")
  query λ db. filter (registered_for opp.id) db.registrations

unfoldable pub export_registrations : Office → ℕ → CurrentUser → Route (List ℕ)
export_registrations office opportunity_id user = with_db do
  opp ← get_opportunity opportunity_id
  raise_if (not (is_coordinator user.role) || not (opp.coordinator_id == user.id))
      (http_exception 403 "Coordinator only")
  generate_excel_export office opportunity_id

unfoldable pub run_deadlines : Office → ℕ → Route Unit
run_deadlines office now = with_db (process_deadlines office now)
