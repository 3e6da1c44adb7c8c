-- ===== src/Opportunity/Responses.antt =====
-- The response models of services/opportunity-service/app/schemas.py, as pydantic fills them from a
-- row and the rows of its relationships. A relationship without an `order_by` is read in an order
-- that the database chooses: the parameter `select`.
use campus_hr_b.Prelude.{
  ℕ, String, Bool, Option, none, some, List, [], ◌∷◌, ◌==◌, str_eq, if◌then◌else◌,
}
use campus_hr_b.Json.{Dict, ℤ}
use campus_hr_b.Common.Enums.{
  FormFieldType, text, number, email, dropdown, checkbox, file, deadline,
}
use campus_hr_b.Table.{filter}
use campus_hr_b.Opportunity.Model.{Opportunity, FormField, Db}

pub record FormFieldResponse : Type 0 where
  pub id : ℕ
  pub field_type : FormFieldType
  pub label : String
  pub required : Bool
  pub options : Option Dict
  pub maps_to_profile_field : Option String
  pub sort_order : ℤ

pub record OpportunityResponse : Type 0 where
  pub id : ℕ
  pub title : String
  pub description : Option String
  pub coordinator_id : ℕ
  pub deadline : Option ℕ
  pub status : String
  pub form_fields : List FormFieldResponse

-- `FormFieldType(value)`, or none where it is no member's value
unfoldable pub field_type_of_text : String → Option FormFieldType
field_type_of_text value =
    if str_eq value "text"
    then some text
    else if str_eq value "number"
    then some number
    else if str_eq value "email"
    then some email
    else if str_eq value "dropdown"
    then some dropdown
    else if str_eq value "checkbox"
    then some checkbox
    else if str_eq value "file"
    then some file
    else if str_eq value "deadline"
    then some deadline
    else none

-- the relationship `opp.form_fields`
abbrev pub field_of : ℕ → FormField → Bool
field_of opportunity_id field = field.opportunity_id == opportunity_id

abbrev shown_field : FormField → FormFieldType → FormFieldResponse
shown_field field field_type = record {
  id = field.id;
  field_type = field_type;
  label = field.label;
  required = field.required;
  options = field.options;
  maps_to_profile_field = field.maps_to_profile_field;
  sort_order = field.sort_order;
}

-- none where the response does not validate, which the server answers with an error
unfoldable pub field_response : FormField → Option FormFieldResponse
unfolding field_type_of_text
field_response field = shown (field_type_of_text field.field_type)
  where
    shown : Option FormFieldType → Option FormFieldResponse
    shown none = none
    shown (some field_type) = some (shown_field field field_type)

abbrev consed :
    Option FormFieldResponse → Option (List FormFieldResponse) → Option (List FormFieldResponse)
consed none fields = none
consed (some field) none = none
consed (some field) (some fields) = some (field ∷ fields)

unfoldable pub field_responses : List FormField → Option (List FormFieldResponse)
unfolding field_response
field_responses [] = some []
field_responses (field ∷ fields) = consed (field_response field) (field_responses fields)

unfoldable pub opportunity_response :
    (List FormField → List FormField) → Db → Opportunity → Option OpportunityResponse
unfolding field_responses
opportunity_response select db opp =
    with_fields (field_responses (select (filter (field_of opp.id) db.form_fields)))
  where
    with_fields : Option (List FormFieldResponse) → Option OpportunityResponse
    with_fields none = none
    with_fields (some fields) = some (record {
      id = opp.id;
      title = opp.title;
      description = opp.description;
      coordinator_id = opp.coordinator_id;
      deadline = opp.deadline;
      status = opp.status;
      form_fields = fields;
    })
