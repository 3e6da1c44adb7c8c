-- ===== src/Opportunity/Publishing.antt =====
-- What the answers to `create_opp` and then to `get_opp` show of the request.
use campus_hr_b.Prelude.{
  zero, Option-cases, Bool, Option, none, false, if◌then◌else◌, ℕ, suc, ◌≡◌, refl, ap, ◌∙◌, true,
  some, List, [], ◌∷◌, ◌++◌, ◌==◌, arith, Bool-cases, inl, inr,
}
use campus_hr_b.Common.Enums.{
  CurrentUser, coordinator, FormFieldType, text, number, email, dropdown, checkbox, file, deadline,
  field_type_value,
}
use campus_hr_b.Json.{ℤ, pos, negsuc}
use campus_hr_b.Session.{Server, ok}
use campus_hr_b.Table.{first, filter}
use campus_hr_b.Table.Count.{to_nat, count}
use campus_hr_b.Table.Rows.{first-append_one}
use campus_hr_b.Opportunity.Model.{
  Opportunity, FormField, FormFieldCreate, OpportunityCreate, Stamp, Db, World, has_id,
}
use campus_hr_b.Opportunity.Service.{
  get_opportunity, new_opportunity, new_field, new_fields, order_or,
}
use campus_hr_b.Opportunity.Api.{create_opp, get_opp}
use campus_hr_b.Opportunity.Creating.{create_opp_made, created, after_create, all_fit}
use campus_hr_b.Prelude.{true}
use campus_hr_b.Opportunity.Responses.{
  FormFieldResponse, field_type_of_text, field_of, field_response, field_responses,
  opportunity_response,
}

field_type_of_text-field_type_value :
    (t : FormFieldType) → field_type_of_text (field_type_value t) ≡ some t
unfolding field_type_of_text
field_type_of_text-field_type_value text = refl
field_type_of_text-field_type_value number = refl
field_type_of_text-field_type_value email = refl
field_type_of_text-field_type_value dropdown = refl
field_type_of_text-field_type_value checkbox = refl
field_type_of_text-field_type_value file = refl
field_type_of_text-field_type_value deadline = refl

-- an order of 0 counts as a missing one, and the place stands for it
abbrev pub asked_order : ℤ → ℕ → ℤ
asked_order (pos n) idx = if n == 0 then pos idx else pos n
asked_order (negsuc n) idx = negsuc n

order_or_lem : (z : ℤ) (idx : ℕ) → order_or z idx ≡ asked_order z idx
unfolding order_or
order_or_lem (pos zero) idx = refl
order_or_lem (pos (suc n)) idx = ground arith
order_or_lem (negsuc n) idx = refl

-- a field of the request as the answers show it: at its place, the place stands for a missing order
abbrev pub asked_field : ℕ → ℕ → FormFieldCreate → FormFieldResponse
asked_field row_id idx field = record {
  id = row_id;
  field_type = field.field_type;
  label = field.label;
  required = field.required;
  options = field.options;
  maps_to_profile_field = field.maps_to_profile_field;
  sort_order = asked_order field.sort_order idx;
}

abbrev pub asked_fields : (ℕ → ℕ) → ℕ → List FormFieldCreate → List FormFieldResponse
asked_fields ids idx [] = []
asked_fields ids idx (field ∷ fields) =
    asked_field (ids idx) idx field ∷ asked_fields ids (suc idx) fields

-- the test on what the answers show of a row
abbrev on_shown : (FormFieldResponse → Bool) → Option FormFieldResponse → Bool
on_shown p none = false
on_shown p (some r) = p r

abbrev is_none : Option FormFieldResponse → Bool
is_none none = true
is_none (some r) = false

abbrev shows : (FormFieldResponse → Bool) → FormField → Bool
shows p field = on_shown p (field_response field)

-- the row makes no response
abbrev broken : FormField → Bool
broken field = is_none (field_response field)

-- the list makes a response, with the responses of the rows
abbrev AllShown : List FormField → Type 0
AllShown fields =
    (shown : List FormFieldResponse) × (field_responses fields ≡ some shown)
    × ((p : FormFieldResponse → Bool) → count p shown ≡ count (shows p) fields)

AllShown-cons :
    (field : FormField) (fields : List FormField) (r : FormFieldResponse)
    → field_response field ≡ some r
    → AllShown fields
    → AllShown (field ∷ fields)
unfolding field_responses count
AllShown-cons field fields r e (shown, same, counts) =
    (r ∷ shown, rw (e, same) refl, λ p. omega (arith, counts p, ap (λ o. to_nat (on_shown p o)) e))

field_responses_all : (fields : List FormField) → count broken fields ≡ 0 → AllShown fields
unfolding field_responses count
field_responses_all [] h = ([], refl, λ p. refl)
field_responses_all (field ∷ fields) h =
    let rest : AllShown fields = field_responses_all fields (omega (arith, h)) in
    elim (Option-cases (field_response field)) [
      | inl e ↦ absurd (omega (arith, h, ap (λ r. to_nat (is_none r)) e))
      | inr (r, e) ↦ AllShown-cons field fields r e rest
    ]

field_response-new_field :
    (row_id k idx : ℕ) (field : FormFieldCreate)
    → field_response (new_field row_id k idx field) ≡ some (asked_field row_id idx field)
unfolding field_response new_field
field_response-new_field row_id k idx field =
    rw (field_type_of_text-field_type_value field.field_type) (
      ap (λ z. some (record (asked_field row_id idx field) { sort_order = z }))
        (order_or_lem field.sort_order idx))

broken-new_fields :
    (ids : ℕ → ℕ) (k idx : ℕ) (fields : List FormFieldCreate)
    → count broken (new_fields ids k idx fields) ≡ 0
unfolding new_fields count
broken-new_fields ids k idx [] = refl
broken-new_fields ids k idx (field ∷ fields) = omega (
  arith,
  ap (λ o. to_nat (is_none o)) (field_response-new_field (ids idx) k idx field),
  broken-new_fields ids k (suc idx) fields,
)

shows-new_fields :
    (ids : ℕ → ℕ) (k idx : ℕ) (fields : List FormFieldCreate) (p : FormFieldResponse → Bool)
    → count (shows p) (new_fields ids k idx fields) ≡ count p (asked_fields ids idx fields)
unfolding new_fields count
shows-new_fields ids k idx [] p = refl
shows-new_fields ids k idx (field ∷ fields) p = omega (
  arith,
  ap (λ o. to_nat (on_shown p o)) (field_response-new_field (ids idx) k idx field),
  shows-new_fields ids k (suc idx) fields p,
)

filter-new_fields :
    (ids : ℕ → ℕ) (k idx : ℕ) (old : List FormField) (fields : List FormFieldCreate)
    → count (field_of k) old ≡ 0
    → filter (field_of k) (old ++ new_fields ids k idx fields) ≡ new_fields ids k idx fields
unfolding filter new_fields count new_field
filter-new_fields ids k idx [] [] none' = refl
filter-new_fields ids k idx [] (field ∷ fields) none' =
    let own : (k == k) ≡ true = ground arith in
    rw (own, filter-new_fields ids k (suc idx) [] fields refl) refl
filter-new_fields ids k idx (f ∷ old) fields none' = elim (Bool-cases (field_of k f)) [
  | inl hit ↦ absurd (ground (arith, none', hit))
  | inr miss ↦ rw miss (filter-new_fields ids k idx old fields (ground (arith, none', miss)))
]

module _ (row : Stamp) (field_ids rule_ids : ℕ → ℕ) (request : OpportunityCreate)
    (user : CurrentUser) (s : Server Db World) (select : List FormField → List FormField)
    (keeps : (p : FormField → Bool) (xs : List FormField) → count p (select xs) ≡ count p xs)
    (new_key : count (has_id row.id) s.db.opportunities ≡ 0)
    (no_fields : count (field_of row.id) s.db.form_fields ≡ 0) where
  abbrev made_opp : Opportunity
  made_opp = created row field_ids rule_ids request user s

  abbrev made_server : Server Db World
  made_server = after_create row field_ids rule_ids request user s

  created_shown :
      (get_opp row.id made_server ≡ (ok made_opp, made_server))
      × ((shown : List FormFieldResponse) × (opportunity_response select made_server.db made_opp
            ≡ some (record {
              id = row.id;
              title = request.title;
              description = request.description;
              coordinator_id = user.id;
              deadline = request.deadline;
              status = "published";
              form_fields = shown;
            }))
          × ((p : FormFieldResponse → Bool)
              → count p shown ≡ count p (asked_fields field_ids 0 request.form_fields)))
  unfolding get_opp get_opportunity opportunity_response new_opportunity
  created_shown =
      let own : (row.id == row.id) ≡ true = ground arith in
      let found : first (has_id row.id) (s.db.opportunities ++ made_opp ∷ []) ≡ some made_opp =
        first-append_one (has_id row.id) s.db.opportunities made_opp ∙ rw (new_key, own) refl in
      let fields = new_fields field_ids row.id 0 request.form_fields in
      let (shown, response, counts) =
        field_responses_all (select fields)
          (keeps broken fields ∙ broken-new_fields field_ids row.id 0 request.form_fields) in
      (
        rw found refl,
        (
          shown,
          rw (filter-new_fields field_ids row.id 0 s.db.form_fields request.form_fields no_fields)
              (rw response refl),
          λ p.
              counts p
              ∙ keeps (shows p) fields
              ∙ shows-new_fields field_ids row.id 0 request.form_fields p,
        ),
      )

-- A coordinator's request for a new opportunity whose texts and numbers the columns take, with a
-- key that neither an opportunity nor a form field has, is answered with success. That answer, and
-- the one to each reader who then asks for the key, shows the request: title, description and
-- deadline, the coordinator, the status published, and each form field as often as the request has
-- it, in whatever order the database has them, where a field without an order has its place;
-- reading changes nothing.
pub create_opp-get_opp :
    (row : Stamp) (field_ids rule_ids : ℕ → ℕ) (request : OpportunityCreate) (user : CurrentUser)
    (s : Server Db World) (select : List FormField → List FormField)
    → ((p : FormField → Bool) (xs : List FormField) → count p (select xs) ≡ count p xs)
    → count (has_id row.id) s.db.opportunities ≡ 0
    → count (field_of row.id) s.db.form_fields ≡ 0
    → user.role ≡ coordinator
    → all_fit row field_ids rule_ids request user s ≡ true
    → (opp : Opportunity) × (t : Server Db World) × (create_opp row field_ids rule_ids request user
          s
        ≡ (ok opp, t))
      × (get_opp row.id t ≡ (ok opp, t))
      × ((shown : List FormFieldResponse) × (opportunity_response select t.db opp
            ≡ some (record {
              id = row.id;
              title = request.title;
              description = request.description;
              coordinator_id = user.id;
              deadline = request.deadline;
              status = "published";
              form_fields = shown;
            }))
          × ((p : FormFieldResponse → Bool)
              → count p shown ≡ count p (asked_fields field_ids 0 request.form_fields)))
create_opp-get_opp row field_ids rule_ids request user s select keeps new_key no_fields staff fit =
    let (found, shows_it) =
      created_shown row field_ids rule_ids request user s select keeps new_key no_fields in
    (
      created row field_ids rule_ids request user s,
      after_create row field_ids rule_ids request user s,
      create_opp_made row field_ids rule_ids request user s staff fit,
      found,
      shows_it,
    )
