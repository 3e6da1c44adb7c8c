-- ===== src/Tests/Opportunities.antt =====
-- The opportunity service on a small campus: coordinator 9 publishes opportunity 30, whose rule
-- asks for a least CGPA and a branch, and student 7 asks to be registered.
use campus_hr_b.Prelude.{
  Bool, List, ap, ℕ, false, ◌≡◌, ◌≤◌, refl, true, none, some, String, Option, [], ◌∷◌, ◌++◌, map,
  arith,
}
use campus_hr_b.Json.{ℤ, pos, obj, end}
use campus_hr_b.Common.Enums.{CurrentUser, student, coordinator}
use campus_hr_b.Http.{HttpClient, Settings, reply}
use campus_hr_b.Session.{Server, ok, err, http_exception, Refused}
use campus_hr_b.Table.{first, filter, update_where}
use campus_hr_b.Table.Count.{count}
use campus_hr_b.Opportunity.Model.{
  Opportunity, OpportunityUpdate, Registration, RegistrationCreate, length, storable, storable_json,
  storable_dict, unset, set_to, Db, World, Stamp, has_id, registered_by,
}
use campus_hr_b.Opportunity.Eligibility.{check_eligibility}
use campus_hr_b.Opportunity.Creating.{all_fit}
use campus_hr_b.Opportunity.Service.{
  register_student, profile_of, new_opportunity, new_fields, new_field, order_or, Office,
  new_registration, get_opportunity, update_opportunity, replace_opportunity, updated,
}
use campus_hr_b.Opportunity.Api.{
  patch_opp, create_registration, list_registrations, export_registrations, run_deadlines,
}
use campus_hr_b.Opportunity.Rules.{
  Profile, Rule, profile_json, stored, check_eligibility_decides, check_eligibility_empty,
}
use campus_hr_b.Common.Enums
use campus_hr_b.Opportunity.Model.{OpportunityCreate}
use campus_hr_b.Opportunity.Api.{create_opp, get_opp}
use campus_hr_b.Opportunity.Deadlines.{run_deadlines_closes}
use campus_hr_b.Opportunity.Scheduler.{Timeline, run_time}
use campus_hr_b.Opportunity.Closing.{runs_close}
use campus_hr_b.Opportunity.Scheduler
use campus_hr_b.Opportunity.Responses.{FormFieldResponse, opportunity_response}
use campus_hr_b.Opportunity.Publishing.{create_opp-get_opp, asked_fields}
use campus_hr_b.Opportunity.Admission.{
  create_registration_decides, create_registration_fails_open, create_registration_success,
}
use campus_hr_b.Opportunity.Lasting.{create_registration_once}
use campus_hr_b.Opportunity.Ownership.{patch_opp_success}
use campus_hr_b.Opportunity.Readers.{registrations_readers}
use campus_hr_b.Json.{has_text, get}
use campus_hr_b.Opportunity.Requests.{IsValid, here, next, patches, registers, runs, Serves-IsValid}

abbrev asha : CurrentUser
asha = record { id = 7; role = student }

abbrev office_head : CurrentUser
office_head = record { id = 9; role = coordinator }

abbrev strict : Rule
strict = record { min_cgpa = some (pos 8); allowed_branches = some ("CSE" ∷ "ECE" ∷ []) }

abbrev fit : Profile
fit = record {
  user_id = "7";
  name = some "Asha";
  cgpa = some (pos 9);
  branch = some "ECE";
  year = some (pos 4);
  phone = none;
  skills = some ("SQL" ∷ []);
  updated_at = some "2026-01-01";
}

abbrev intern : Opportunity
intern = record {
  id = 30;
  title = "Intern";
  description = none;
  coordinator_id = 9;
  deadline = some 50;
  status = "published";
  created_at = 1;
}

abbrev campus_db : Db
campus_db = record {
  opportunities = intern ∷ [];
  form_fields = [];
  registrations = [];
  eligibility_rules = stored 30 (40, strict) ∷ [];
}

abbrev campus : Server Db World
campus = record { db = campus_db; world = tt }

abbrev urls : Settings
urls = record { identity_service_url = "http://identity"; opportunity_service_url = "" }

abbrev network : HttpClient
network = λ url. reply 200 (some (profile_json fit))

abbrev broken : HttpClient
broken = λ url. reply 404 none

abbrev no_floats : String → Option ℤ
no_floats = λ s. none

abbrev wish : RegistrationCreate
wish = record { field_responses = end; resume_url = none }

abbrev stamp : Stamp
stamp = record { id = 60; now = 20 }

abbrev desk : Office
desk = record { show_dict = λ d. ""; isoformat = λ t. ""; save = λ rows. some [] }

check_eligibility_decides_example :
    check_eligibility no_floats (profile_json fit) (map (stored 30) ((40, strict) ∷ [])) ≡ ok true
check_eligibility_decides_example = check_eligibility_decides no_floats fit 30 ((40, strict) ∷ [])

check_eligibility_empty_example :
    check_eligibility no_floats (obj end) (stored 30 (40, strict) ∷ []) ≡ ok true
check_eligibility_empty_example = check_eligibility_empty no_floats (stored 30 (40, strict) ∷ [])

abbrev admitted : Registration
admitted = new_registration stamp 30 7 wish

abbrev admitted_campus : Server Db World
admitted_campus = record campus { db = record campus_db { registrations = admitted ∷ [] } }

create_registration_decides_example :
    create_registration network urls no_floats stamp 30 wish asha campus
    ≡ (ok admitted, admitted_campus)
unfolding first filter length storable_json
create_registration_decides_example =
    create_registration_decides network urls no_floats stamp 30 wish asha campus intern fit
      ((40, strict) ∷ []) refl refl refl refl refl refl

create_registration_fails_open_example :
    create_registration broken urls no_floats stamp 30 wish asha campus
    ≡ (ok admitted, admitted_campus)
unfolding first length storable_json
create_registration_fails_open_example =
    create_registration_fails_open broken urls no_floats stamp 30 wish asha campus intern 404 none
      refl refl refl (λ e. omega (arith, e)) refl refl

create_registration_success_example :
    (asha.role ≡ student)
    × (count (registered_by 30 7) campus_db.registrations ≡ 0)
    × ((opp : Opportunity) × (first (has_id 30) campus_db.opportunities ≡ some opp))
    × (admitted.student_id ≡ 7)
    × (admitted.opportunity_id ≡ 30)
    × (admitted_campus.db ≡ record campus_db { registrations = [] ++ admitted ∷ [] })
create_registration_success_example =
    create_registration_success network urls no_floats stamp 30 wish asha campus admitted
      admitted_campus create_registration_decides_example

only_intern : (k : ℕ) → count (has_id k) campus_db.opportunities ≤ 1
unfolding count
only_intern k = ground arith

run_deadlines_closes_example : run_deadlines desk 60 campus ≡ (
  ok tt,
  record campus {
    db = record campus_db { opportunities = record intern { status = "closed" } ∷ [] };
  },
)
unfolding filter
run_deadlines_closes_example = run_deadlines_closes desk 60 campus only_intern

abbrev rename : OpportunityUpdate
rename = record {
  title = set_to (some "Trainee");
  description = unset;
  deadline = set_to none;
  status = unset;
}

abbrev trainee : Opportunity
trainee = record intern { title = "Trainee"; deadline = none }

abbrev renamed_campus : Server Db World
renamed_campus = record campus { db = record campus_db { opportunities = trainee ∷ [] } }

renamed : patch_opp 30 rename office_head campus ≡ (ok trainee, renamed_campus)
unfolding patch_opp update_opportunity get_opportunity replace_opportunity updated first
    update_where length storable
renamed = refl

patch_opp_success_example :
    (opp : Opportunity) × (office_head.role ≡ coordinator)
    × (first (has_id 30) campus_db.opportunities ≡ some opp)
    × (opp.coordinator_id ≡ 9)
    × (30 ≡ opp.id)
    × (9 ≡ opp.coordinator_id)
    × (1 ≡ opp.created_at)
    × (some "Trainee" ≡ some trainee.title)
    × (trainee.description ≡ opp.description)
    × (trainee.deadline ≡ none)
    × ("published" ≡ opp.status)
    × (renamed_campus.db ≡ record campus_db {
      opportunities = update_where (has_id opp.id) (λ old. trainee) campus_db.opportunities;
    })
patch_opp_success_example =
    patch_opp_success 30 rename office_head campus trainee renamed_campus renamed

registrations_readers_example :
    (list_registrations 30 asha admitted_campus ≡ (ok (admitted ∷ []), admitted_campus))
    × (export_registrations desk 30 asha admitted_campus
        ≡ (err (http_exception 403 "Coordinator only"), admitted_campus))
unfolding first filter new_registration
registrations_readers_example = registrations_readers desk 30 asha admitted_campus intern refl

campus-IsValid : IsValid campus_db
unfolding count
campus-IsValid = (only_intern, λ o u. omega arith)

-- the coordinator renames the opportunity, and the scheduler closes it
abbrev closed_campus : Server Db World
closed_campus = (run_deadlines desk 60 (patch_opp 30 rename office_head admitted_campus).1).1

create_registration_once_example :
    Refused
      (create_registration broken urls no_floats stamp 30 wish asha closed_campus)
      closed_campus
create_registration_once_example =
    create_registration_once network urls no_floats stamp 30 wish asha campus admitted_campus
      closed_campus admitted campus-IsValid create_registration_decides_example
      (next (next here (patches 30 rename office_head)) (runs desk 60)) broken urls no_floats stamp
      wish

Serves-IsValid_example :
    IsValid
      (run_deadlines desk 60
        (create_registration network urls no_floats stamp 30 wish asha
          (patch_opp 30 rename office_head campus).1).1).1.db
Serves-IsValid_example = Serves-IsValid campus-IsValid (
    next
      (next (next here (patches 30 rename office_head))
        (registers network urls no_floats stamp 30 wish asha))
      (runs desk 60))

abbrev notice : OpportunityCreate
notice = record {
  title = "Engineer";
  description = some "Two years";
  deadline = none;
  form_fields =
      record {
        field_type = Enums.email;
        label = "Mail";
        required = true;
        options = none;
        maps_to_profile_field = some "email";
        sort_order = pos 0;
      }
      ∷ record {
        field_type = Enums.file;
        label = "CV";
        required = false;
        options = none;
        maps_to_profile_field = none;
        sort_order = pos 0;
      }
      ∷ [];
  eligibility_rules = end ∷ [];
}

notice_fits : all_fit stamp (λ k. k) (λ k. k) notice office_head campus ≡ true
unfolding new_opportunity new_fields new_field length storable storable_json order_or
notice_fits = refl

create_opp-get_opp_example :
    (opp : Opportunity) × (t : Server Db World) × (create_opp stamp
        (λ k. k)
        (λ k. k)
        notice
        office_head
        campus
      ≡ (ok opp, t))
    × (get_opp 60 t ≡ (ok opp, t))
    × ((shown : List FormFieldResponse) × (opportunity_response (λ rows. rows) t.db opp
          ≡ some (record {
            id = 60;
            title = "Engineer";
            description = some "Two years";
            coordinator_id = 9;
            deadline = none;
            status = "published";
            form_fields = shown;
          }))
        × ((p : FormFieldResponse → Bool)
            → count p shown ≡ count p (asked_fields (λ k. k) 0 notice.form_fields)))
unfolding count
create_opp-get_opp_example =
    create_opp-get_opp stamp (λ k. k) (λ k. k) notice office_head campus (λ rows. rows)
      (λ p xs. refl) refl refl refl notice_fits

-- after the student's request
abbrev busy_campus : Server Db World
busy_campus = (create_registration network urls no_floats stamp 30 wish asha campus).1

abbrev after_minute : Server Db World
after_minute = (run_deadlines desk (run_time 40 1) busy_campus).1

abbrev line : Timeline desk 40 30 campus 0 busy_campus
line = Scheduler.registers Scheduler.started network urls no_floats stamp 30 wish asha

only_intern_busy : (k : ℕ) → count (has_id k) busy_campus.db.opportunities ≤ 1
only_intern_busy =
    (Serves-IsValid campus-IsValid
      (next here (registers network urls no_floats stamp 30 wish asha))).0

run_fine : (run_deadlines desk (run_time 40 1) busy_campus).0 ≡ ok tt
unfolding create_registration new_registration filter register_student first profile_of
    check_eligibility get has_text storable_dict
run_fine = ap (λ r. r.0) (run_deadlines_closes desk (run_time 40 1) busy_campus only_intern_busy)

runs_close_example :
    first (has_id 30) after_minute.db.opportunities ≡ some (record intern { status = "closed" })
unfolding first
runs_close_example =
    runs_close desk 40 30 campus intern 50 60000060 1 after_minute campus-IsValid refl refl refl
      (omega arith) (Scheduler.runs line run_fine) (omega arith) (omega arith)
