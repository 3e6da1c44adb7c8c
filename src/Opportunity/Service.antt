-- ===== src/Opportunity/Service.antt =====
-- services/opportunity-service/app/services/opportunity_service.py, but for the upload of files,
-- and `process_deadlines` of main.py. `db.refresh` gives the row that the session has just
-- committed.
use Prim.Native.String.{◌++◌ as str_append}
use campus_hr_b.Prelude.{
  ℕ, suc, String, Option, none, some, List, [], ◌∷◌, ◌++◌, map, not, ◌==◌, ◌&&◌, if◌then◌else◌,
  is_some,
}
use campus_hr_b.Json.{Json, Dict, ℤ, pos, obj, end}
use campus_hr_b.Common.Enums.{field_type_value}
use campus_hr_b.Common.Uuid.{to_text}
use campus_hr_b.Events.{Broker, EventType, publish}
use campus_hr_b.Http.{HttpClient, Reply, Settings, failed, reply}
use campus_hr_b.Session.{
  Exec, http_exception, client_error, integrity_error, data_error, illegal_character_error, pure,
  raise, lift, or_raise, raise_if, ◌>>=◌, ◌>>◌, query, modify, commit,
}
use campus_hr_b.Table.{first, filter, update_where, order_by_desc}
use campus_hr_b.Opportunity.Model.{
  opportunity_fits, fields_fit, rules_fit, registration_fits, Opportunity, FormField, Registration,
  EligibilityRule, FormFieldCreate, OpportunityCreate, OpportunityUpdate, Change, unset, set_to,
  RegistrationCreate, Stamp, Handler, has_id, registered_by, registered_for, rule_of, is_due,
}
use campus_hr_b.Opportunity.Eligibility.{check_eligibility}

unfoldable pub profile_of : Reply → Handler Json
profile_of failed = raise client_error
profile_of (reply status body) =
    if status == 200 then or_raise body client_error else pure (obj end)

abbrev pub profile_url : Settings → ℕ → String
profile_url settings user_id =
    str_append settings.identity_service_url (str_append "/api/v1/auth/profile/" (to_text user_id))

unfoldable pub fetch_profile : HttpClient → Settings → ℕ → Handler Json
fetch_profile http_get settings user_id = profile_of (http_get (profile_url settings user_id))

-- `field.sort_order or idx`
unfoldable pub order_or : ℤ → ℕ → ℤ
order_or (pos ℕ.zero) idx = pos idx
order_or order idx = order

unfoldable pub new_field : ℕ → ℕ → ℕ → FormFieldCreate → FormField
unfolding order_or
new_field row_id opportunity_id idx field = record {
  id = row_id;
  opportunity_id = opportunity_id;
  field_type = field_type_value field.field_type;
  label = field.label;
  required = field.required;
  options = field.options;
  maps_to_profile_field = field.maps_to_profile_field;
  sort_order = order_or field.sort_order idx;
}

-- the loop over `enumerate(data.form_fields)`; `ids` gives the uuid4 of each row
unfoldable pub new_fields : (ℕ → ℕ) → ℕ → ℕ → List FormFieldCreate → List FormField
unfolding new_field
new_fields ids opportunity_id idx [] = []
new_fields ids opportunity_id idx (field ∷ fields) =
    new_field (ids idx) opportunity_id idx field ∷ new_fields ids opportunity_id (suc idx) fields

-- the loop over `data.eligibility_rules`
unfoldable pub new_rules : (ℕ → ℕ) → ℕ → ℕ → List Dict → List EligibilityRule
new_rules ids opportunity_id idx [] = []
new_rules ids opportunity_id idx (rule ∷ rules) =
    record { id = ids idx; opportunity_id = opportunity_id; rule = rule }
    ∷ new_rules ids opportunity_id (suc idx) rules

unfoldable pub new_opportunity : Stamp → ℕ → OpportunityCreate → Opportunity
new_opportunity row coordinator_id request = record {
  id = row.id;
  title = request.title;
  description = request.description;
  coordinator_id = coordinator_id;
  deadline = request.deadline;
  status = "published";
  created_at = row.now;
}

unfoldable pub create_opportunity :
    Stamp → (ℕ → ℕ) → (ℕ → ℕ) → ℕ → OpportunityCreate → Handler Opportunity
create_opportunity row field_ids rule_ids coordinator_id request = do
  let opp = new_opportunity row coordinator_id request
  modify λ db. record db { opportunities = db.opportunities ++ opp ∷ [] }
  modify λ db. record db {
    form_fields = db.form_fields ++ new_fields field_ids opp.id 0 request.form_fields;
  }
  modify λ db. record db {
    eligibility_rules =
        db.eligibility_rules ++ new_rules rule_ids opp.id 0 request.eligibility_rules;
  }
  raise_if
      (not (
        opportunity_fits opp
        && (fields_fit (new_fields field_ids opp.id 0 request.form_fields)
            && rules_fit request.eligibility_rules)))
      data_error
  commit
  pure opp

unfoldable pub list_opportunities : Handler (List Opportunity)
list_opportunities = query λ db. order_by_desc (λ opp. opp.created_at) db.opportunities

unfoldable pub get_opportunity : ℕ → Handler Opportunity
get_opportunity opportunity_id = do
  found ← query λ db. first (has_id opportunity_id) db.opportunities
  or_raise found (http_exception 404 "Opportunity not found")

-- an attribute of a nullable column is set
abbrev pub changed : {A : Type 0} → Change A → A → A
changed unset old = old
changed (set_to new) old = new

-- an attribute of a column that is not null is set; null is refused at the commit
abbrev pub changed_to : Change (Option String) → String → Option String
changed_to unset old = some old
changed_to (set_to new) old = new

abbrev pub updated_texts :
    OpportunityUpdate → Opportunity → Option String → Option String → Option Opportunity
updated_texts request opp none status = none
updated_texts request opp (some title) none = none
updated_texts request opp (some title) (some status) = some (record opp {
  title = title;
  description = changed request.description opp.description;
  deadline = changed request.deadline opp.deadline;
  status = status;
})

-- the loop over the fields that the request sets; none where a column would be null that may not be
unfoldable pub updated : OpportunityUpdate → Opportunity → Option Opportunity
updated request opp =
    updated_texts request opp (changed_to request.title opp.title)
      (changed_to request.status opp.status)

unfoldable pub replace_opportunity : ℕ → Opportunity → Handler Unit
replace_opportunity k new =
    modify λ db. record db { opportunities = update_where (has_id k) (λ opp. new) db.opportunities }

unfoldable pub update_opportunity : ℕ → ℕ → OpportunityUpdate → Handler Opportunity
unfolding get_opportunity replace_opportunity
update_opportunity opportunity_id coordinator_id request = do
  opp ← get_opportunity opportunity_id
  raise_if (not (opp.coordinator_id == coordinator_id)) (http_exception 403 "Not your opportunity")
  new ← or_raise (updated request opp) integrity_error
  replace_opportunity opp.id new
  raise_if (not (opportunity_fits new)) data_error
  commit
  pure new

unfoldable pub new_registration : Stamp → ℕ → ℕ → RegistrationCreate → Registration
new_registration row opportunity_id student_id request = record {
  id = row.id;
  opportunity_id = opportunity_id;
  student_id = student_id;
  field_responses = request.field_responses;
  resume_url = request.resume_url;
  submitted_at = row.now;
}

unfoldable pub add_registration : Registration → Handler Unit
add_registration reg = modify λ db. record db { registrations = db.registrations ++ reg ∷ [] }

unfoldable pub register_student :
    HttpClient
    → Settings
    → (String → Option ℤ)
    → Stamp
    → ℕ
    → ℕ
    → RegistrationCreate
    → Handler Registration
unfolding get_opportunity fetch_profile add_registration
register_student http_get settings parse_float row opportunity_id student_id request = do
  opp ← get_opportunity opportunity_id
  profile ← fetch_profile http_get settings student_id
  rules ← query λ db. filter (rule_of opp.id) db.eligibility_rules
  eligible ← lift (check_eligibility parse_float profile rules)
  raise_if (not eligible) (http_exception 400 "Not eligible for this opportunity")
  existing ← query λ db. first (registered_by opportunity_id student_id) db.registrations
  raise_if (is_some existing) (http_exception 400 "Already registered")
  let reg = new_registration row opportunity_id student_id request
  add_registration reg
  raise_if (not (registration_fits request)) data_error
  commit
  pure reg

-- what openpyxl and Python's `str` and `isoformat` make of values
pub record Office : Type 0 where
  pub show_dict : Dict → String
  pub isoformat : ℕ → String
  -- none where a text has a character that openpyxl takes in no cell
  pub save : List (List String) → Option (List ℕ)

abbrev pub text_or : Option String → String → String
text_or none d = d
text_or (some s) d = s

unfoldable pub export_row : Office → Registration → List String
export_row office reg =
    to_text reg.student_id
    ∷ office.show_dict reg.field_responses
    ∷ text_or reg.resume_url ""
    ∷ office.isoformat reg.submitted_at
    ∷ []

unfoldable pub export_sheet : Office → List Registration → List (List String)
export_sheet office regs =
    ("Student ID" ∷ "Responses" ∷ "Resume Link" ∷ "Submitted At" ∷ [])
    ∷ map (export_row office) regs

unfoldable pub generate_excel_export : Office → ℕ → Handler (List ℕ)
unfolding get_opportunity
generate_excel_export office opportunity_id = do
  opp ← get_opportunity opportunity_id
  regs ← query λ db. filter (registered_for opportunity_id) db.registrations
  or_raise (office.save (export_sheet office regs)) illegal_character_error

unfoldable pub publish_event : EventType → Dict → Option ℕ → Exec Broker Unit
publish_event event_type payload actor_id = publish (record {
  event_type = event_type;
  payload = payload;
  actor_id = actor_id;
  correlation_id = none;
})

-- `opp.status = "closed"`
unfoldable pub close_opportunity : ℕ → Handler Unit
close_opportunity k = modify λ db. record db {
  opportunities =
      update_where (has_id k) (λ opp. record opp { status = "closed" }) db.opportunities;
}

-- the loop of `process_deadlines` over the opportunities that are due
unfoldable pub close_all : Office → List Opportunity → Handler Unit
unfolding generate_excel_export close_opportunity
close_all office [] = pure tt
close_all office (opp ∷ due) =
    let rest = close_all office due in
    do generate_excel_export office opp.id; close_opportunity opp.id; commit; rest

-- `now` is the clock of the scheduler's run
unfoldable pub process_deadlines : Office → ℕ → Handler Unit
unfolding close_all
process_deadlines office now = do
  due ← query λ db. filter (is_due now) db.opportunities
  close_all office due
