-- ===== src/Opportunity/Model.antt =====
-- services/opportunity-service/app/models.py and schemas.py.
use Prim.Native.Char.{code}
use campus_hr_b.Prelude.{
  suc, true, [], ◌∷◌, not, ltb, ◌^◌, ℕ, String, Bool, false, Option, none, some, List, ◌==◌, ◌&&◌,
  leb, str_eq,
}
use campus_hr_b.Json.{
  pos, negsuc, Json, Items, null, bool, num, text, arr, obj, nil, cons, end, entry, Dict, ℤ,
}
use campus_hr_b.Common.Enums.{FormFieldType}
use campus_hr_b.Session.{Session, Server, Exec}

pub record Opportunity : Type 0 where
  pub id : ℕ
  pub title : String
  pub description : Option String
  pub coordinator_id : ℕ
  pub deadline : Option ℕ
  pub status : String
  pub created_at : ℕ

pub record FormField : Type 0 where
  pub id : ℕ
  pub opportunity_id : ℕ
  pub field_type : String
  pub label : String
  pub required : Bool
  pub options : Option Dict
  pub maps_to_profile_field : Option String
  pub sort_order : ℤ

pub record Registration : Type 0 where
  pub id : ℕ
  pub opportunity_id : ℕ
  pub student_id : ℕ
  pub field_responses : Dict
  pub resume_url : Option String
  pub submitted_at : ℕ

pub record EligibilityRule : Type 0 where
  pub id : ℕ
  pub opportunity_id : ℕ
  pub rule : Dict

-- opportunity_db
pub record Db : Type 0 where
  pub opportunities : List Opportunity
  pub form_fields : List FormField
  pub registrations : List Registration
  pub eligibility_rules : List EligibilityRule

pub record FormFieldCreate : Type 0 where
  pub field_type : FormFieldType
  pub label : String
  pub required : Bool
  pub options : Option Dict
  pub maps_to_profile_field : Option String
  pub sort_order : ℤ

pub record OpportunityCreate : Type 0 where
  pub title : String
  pub description : Option String
  pub deadline : Option ℕ
  pub form_fields : List FormFieldCreate
  pub eligibility_rules : List Dict

-- a field of an update that the request leaves out, or sets
pub data Change (A : Type 0) : Type 0 where
  unset : Change A
  set_to : A → Change A

pub record OpportunityUpdate : Type 0 where
  pub title : Change (Option String)
  pub description : Change (Option String)
  pub deadline : Change (Option ℕ)
  pub status : Change (Option String)

pub record RegistrationCreate : Type 0 where
  pub field_responses : Dict
  pub resume_url : Option String

-- the uuid4 and the server's now() of a row that is added
pub record Stamp : Type 0 where
  pub id : ℕ
  pub now : ℕ

-- how many characters a text has
unfoldable pub length : String → ℕ
length String.[] = 0
length (String.◌∷◌ c s) = suc (length s)

-- no character is NUL, which PostgreSQL takes in no text
unfoldable pub storable : String → Bool
storable String.[] = true
storable (String.◌∷◌ c s) = not (code c == 0) && storable s

-- the text goes into a column `String(n)`
abbrev pub fits : ℕ → String → Bool
fits n s = leb (length s) n && storable s

abbrev pub fits_opt : ℕ → Option String → Bool
fits_opt n none = true
fits_opt n (some s) = fits n s

abbrev pub storable_opt : Option String → Bool
storable_opt none = true
storable_opt (some s) = storable s

-- the value goes into a JSONB column
unfoldable mutual
  pub storable_json : Json → Bool
  storable_json null = true
  storable_json (bool b) = true
  storable_json (num z) = true
  storable_json (text s) = storable s
  storable_json (arr items) = storable_items items
  storable_json (obj d) = storable_dict d

  pub storable_items : Items → Bool
  storable_items nil = true
  storable_items (cons x items) = storable_json x && storable_items items

  pub storable_dict : Dict → Bool
  storable_dict end = true
  storable_dict (entry k x d) = storable k && (storable_json x && storable_dict d)

abbrev pub storable_dict_opt : Option Dict → Bool
storable_dict_opt none = true
storable_dict_opt (some d) = storable_dict d

-- the number goes into an integer column, of 32 bits
abbrev pub int_fits : ℤ → Bool
int_fits (pos n) = ltb n (2 ^ 31)
int_fits (negsuc n) = ltb n (2 ^ 31)

-- The columns take the row. The database refuses one that they do not take at the commit.
abbrev pub opportunity_fits : Opportunity → Bool
opportunity_fits opp = fits 255 opp.title && (storable_opt opp.description && fits 50 opp.status)

abbrev pub field_fits : FormField → Bool
field_fits field =
    fits 255 field.label
    && (storable_dict_opt field.options
        && (fits_opt 100 field.maps_to_profile_field && int_fits field.sort_order))

abbrev pub fields_fit : List FormField → Bool
fields_fit [] = true
fields_fit (field ∷ fields) = field_fits field && fields_fit fields

abbrev pub rules_fit : List Dict → Bool
rules_fit [] = true
rules_fit (rule ∷ rules) = storable_dict rule && rules_fit rules

abbrev pub registration_fits : RegistrationCreate → Bool
registration_fits request = fits_opt 500 request.resume_url && storable_dict request.field_responses

-- the requests of this service change nothing but its database
abbrev pub World : Type 0
World = Unit

abbrev pub Handler : Type 0 → Type 0
Handler A = Exec (Session Db World) A

abbrev pub Route : Type 0 → Type 0
Route A = Exec (Server Db World) A

-- `Opportunity.id == k`
abbrev pub has_id : ℕ → Opportunity → Bool
has_id k opp = opp.id == k

-- `Registration.opportunity_id == o, Registration.student_id == s`
abbrev pub registered_by : ℕ → ℕ → Registration → Bool
registered_by o s reg = reg.opportunity_id == o && reg.student_id == s

-- `Registration.opportunity_id == o`, and the relationship `opp.registrations`
abbrev pub registered_for : ℕ → Registration → Bool
registered_for o reg = reg.opportunity_id == o

-- the relationship `opp.eligibility_rules`
abbrev pub rule_of : ℕ → EligibilityRule → Bool
rule_of o r = r.opportunity_id == o

abbrev pub is_past : Option ℕ → ℕ → Bool
is_past none now = false
is_past (some t) now = leb t now

-- `Opportunity.deadline.isnot(None), Opportunity.deadline <= now, Opportunity.status ==
-- "published"`
abbrev pub is_due : ℕ → Opportunity → Bool
is_due now opp = is_past opp.deadline now && str_eq opp.status "published"
