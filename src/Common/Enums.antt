-- ===== src/Common/Enums.antt =====
-- shared/campushire-common/campushire_common/enums.py, and `CurrentUser` of auth_deps.py.
use campus_hr_b.Prelude.{str_eq, if◌then◌else◌, Option, none, some, ℕ, String, Bool, true, false}

pub data UserRole : Type 0 where
  student coordinator : UserRole

pub data ApplicationStatus : Type 0 where
  applied shortlisted assessment technical_interview hr_interview selected rejected :
      ApplicationStatus

pub data QueryStatus : Type 0 where
  open_ in_progress resolved closed : QueryStatus

pub data FormFieldType : Type 0 where
  text number email dropdown checkbox file deadline : FormFieldType

-- the `.value` of each member
abbrev pub role_value : UserRole → String
role_value student = "student"
role_value coordinator = "coordinator"

-- `role == UserRole.STUDENT`
abbrev pub is_student : UserRole → Bool
is_student student = true
is_student coordinator = false

-- `role == UserRole.COORDINATOR`
abbrev pub is_coordinator : UserRole → Bool
is_coordinator student = false
is_coordinator coordinator = true

abbrev pub application_status_value : ApplicationStatus → String
application_status_value applied = "Applied"
application_status_value shortlisted = "Shortlisted"
application_status_value assessment = "Assessment"
application_status_value technical_interview = "Technical Interview"
application_status_value hr_interview = "HR Interview"
application_status_value selected = "Selected"
application_status_value rejected = "Rejected"

abbrev pub query_status_value : QueryStatus → String
query_status_value open_ = "Open"
query_status_value in_progress = "In Progress"
query_status_value resolved = "Resolved"
query_status_value closed = "Closed"

abbrev pub field_type_value : FormFieldType → String
field_type_value text = "text"
field_type_value number = "number"
field_type_value email = "email"
field_type_value dropdown = "dropdown"
field_type_value checkbox = "checkbox"
field_type_value file = "file"
field_type_value deadline = "deadline"

-- the `CurrentUser` that `get_current_user` hands to a route
pub record CurrentUser : Type 0 where
  pub id : ℕ
  pub role : UserRole

-- `UserRole(text)`, or none where it raises a ValueError
unfoldable pub role_of_text : String → Option UserRole
role_of_text value =
    if str_eq value "student"
    then some student
    else if str_eq value "coordinator"
    then some coordinator
    else none
