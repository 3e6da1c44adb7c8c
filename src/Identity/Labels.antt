-- ===== src/Identity/Labels.antt =====
-- The texts of roles that the database takes after the migration, and after the start of the
-- service.
use campus_hr_b.Prelude.{
  ◌≡◌, refl, ◌∙◌, String, Bool, true, false, List, [], ◌∷◌, ◌++◌, ◌&&◌, str_eq, Bool-cases, inl,
  inr,
}
use campus_hr_b.Common.Enums.{UserRole, student, coordinator, role_value}
use campus_hr_b.Identity.Schema.{
  EnumType, Table, Schema, done, any, is_type, is_table, targets_there, create_type, add_table,
}
use campus_hr_b.Identity.Migration.{user_role, users, student_profiles, refresh_tokens, upgrade}
use campus_hr_b.Identity.Metadata.{
  role_name, user_role_enum, user_table, student_profile_table, refresh_token_table, create_missing,
  create_all, accepts,
}
use campus_hr_b.Identity.Migrating.{
  IsNew, any-append_one, with_table, with_type, upgraded, upgrade-eq, type_added,
}

abbrev has_label : String → EnumType → Bool
has_label label e = any (λ l. str_eq l label) e.labels

none_and :
    (label : String) (types : List EnumType)
    → any (is_type "user_role") types ≡ false
    → any (λ e. is_type "user_role" e && has_label label e) types ≡ false
unfolding any
none_and label [] h = refl
none_and label (e ∷ types) h = elim (Bool-cases (is_type "user_role" e)) [
  | inl hit ↦ absurd (cc (rw hit at h))
  | inr miss ↦ rw miss (none_and label types (rw miss at h))
]

-- the labels of the type are those that it was made with
accepts-with_type :
    (label : String) (e : EnumType) (s : Schema)
    → any (is_type "user_role") s.enum_types ≡ false
    → is_type "user_role" e ≡ true
    → accepts "user_role" label (with_type e s) ≡ has_label label e
unfolding accepts
accepts-with_type label e s new own =
    any-append_one (λ x. is_type "user_role" x && has_label label x) s.enum_types e
    ∙ rw (none_and label s.enum_types new, own) refl

abbrev pub started : Schema → Schema
started s =
    with_table refresh_token_table
      (with_table student_profile_table (with_table user_table (with_type user_role_enum s)))

create_all-eq : (s : Schema) → IsNew s → create_all s ≡ done (started s)
unfolding create_all create_type create_missing add_table targets_there any
create_all-eq s new =
    rw
      (
        new.no_type,
        new.no_users,
        any-append_one (is_table "student_profiles") s.tables user_table,
        new.no_profiles,
        any-append_one (is_table "users") s.tables user_table,
        new.no_users,
        any-append_one (is_table "refresh_tokens") (s.tables ++ user_table ∷ [])
            student_profile_table,
        any-append_one (is_table "refresh_tokens") s.tables user_table,
        new.no_tokens,
        any-append_one (is_table "users") (s.tables ++ user_table ∷ []) student_profile_table,
        any-append_one (is_table "users") s.tables user_table,
        new.no_users,
      )
      refl

-- a table of the name is there
there :
    (name : String) (tables : List Table) (t : Table)
    → is_table name t ≡ true
    → any (is_table name) (tables ++ t ∷ []) ≡ true
there name tables t own =
    any-append_one (is_table name) tables t ∙ elim (Bool-cases (any (is_table name) tables)) [
      | inl h ↦ rw h refl
      | inr h ↦ rw (h, own) refl
    ]

still_there :
    (name : String) (tables : List Table) (t : Table)
    → any (is_table name) tables ≡ true
    → any (is_table name) (tables ++ t ∷ []) ≡ true
still_there name tables t h = any-append_one (is_table name) tables t ∙ rw h refl

create_all-upgraded : (s : Schema) → create_all (upgraded s) ≡ done (upgraded s)
unfolding create_all create_type create_missing
create_all-upgraded s =
    let one = s.tables ++ users ∷ [] in
    let two = one ++ student_profiles ∷ [] in
    rw
      (
        type_added s,
        still_there "users" two refresh_tokens
            (still_there "users" one student_profiles (there "users" s.tables users refl)),
        still_there "student_profiles" two refresh_tokens
            (there "student_profiles" one student_profiles refl),
        there "refresh_tokens" two refresh_tokens refl,
      )
      refl

-- in any table of types with the labels
shown_label :
    (label : String) (e : EnumType) (s t : Schema)
    → any (is_type "user_role") s.enum_types ≡ false
    → is_type "user_role" e ≡ true
    → t.enum_types ≡ s.enum_types ++ e ∷ []
    → accepts "user_role" label t ≡ has_label label e
unfolding accepts
shown_label label e s t new own types = rw types (accepts-with_type label e s new own)

role_labels :
    (s : Schema)
    → IsNew s
    → (role : UserRole)
    → (accepts "user_role" (role_value role) (upgraded s) ≡ true)
      × (accepts "user_role" (role_name role) (upgraded s) ≡ false)
      × (accepts "user_role" (role_name role) (started s) ≡ true)
      × (accepts "user_role" (role_value role) (started s) ≡ false)
unfolding any
role_labels s new student = (
  shown_label "student" user_role s (upgraded s) new.no_type refl refl,
  shown_label "STUDENT" user_role s (upgraded s) new.no_type refl refl,
  shown_label "STUDENT" user_role_enum s (started s) new.no_type refl refl,
  shown_label "student" user_role_enum s (started s) new.no_type refl refl,
)
role_labels s new coordinator = (
  shown_label "coordinator" user_role s (upgraded s) new.no_type refl refl,
  shown_label "COORDINATOR" user_role s (upgraded s) new.no_type refl refl,
  shown_label "COORDINATOR" user_role_enum s (started s) new.no_type refl refl,
  shown_label "coordinator" user_role_enum s (started s) new.no_type refl refl,
)

-- On a schema to which the migration is new, and where SQLAlchemy looks for the type first: the
-- start of the service changes nothing after the migration. For each role, the database then takes
-- the value of the enumeration and not its name, which is what SQLAlchemy writes; where the start
-- of the service has made the tables, it takes the name and not the value.
pub labels_differ :
    (s : Schema)
    → IsNew s
    → (t u : Schema) × (upgrade true s ≡ done t)
      × (create_all t ≡ done t)
      × (create_all s ≡ done u)
      × ((role : UserRole)
          → (accepts "user_role" (role_value role) t ≡ true)
            × (accepts "user_role" (role_name role) t ≡ false)
            × (accepts "user_role" (role_name role) u ≡ true)
            × (accepts "user_role" (role_value role) u ≡ false))
labels_differ s new = (
  upgraded s,
  started s,
  upgrade-eq s new,
  create_all-upgraded s,
  create_all-eq s new,
  role_labels s new,
)
