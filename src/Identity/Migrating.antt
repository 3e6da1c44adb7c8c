-- ===== src/Identity/Migrating.antt =====
-- The migration on any schema: what `upgrade` leaves, that `downgrade` takes it back, and how it
-- fits the metadata of the models.
use text.Mathlib.TextPositions.{eq_refl}
use campus_hr_b.Prelude.{
  ◌≡◌, refl, ap, ◌∙◌, Bool, true, false, List, [], ◌∷◌, ◌++◌, not, ◌||◌, Bool-cases, inl, inr,
  if◌then◌else◌,
}
use campus_hr_b.Table.{filter}
use campus_hr_b.Identity.Schema.{
  EnumType, Table, Schema, done, failed, duplicate_object, any, is_type, is_table, refers_to,
  uses_type, targets_there, enums_of, create_type, create_types, create_table, add_table,
  drop_table, drop_type_if_exists,
}
use campus_hr_b.Identity.Migration.{
  user_role, users, student_profiles, refresh_tokens, upgrade, downgrade,
}

module _ {ℓ} {A : Type ℓ} where
  pub any-append_one : (p : A → Bool) (xs : List A) (a : A) → any p (xs ++ a ∷ []) ≡ any p xs || p a
  unfolding any
  any-append_one p [] a = elim (Bool-cases (p a)) [ inl h ↦ rw h refl | inr h ↦ rw h refl ]
  any-append_one p (x ∷ xs) a = elim (Bool-cases (p x)) [
    | inl h ↦ rw h refl
    | inr h ↦ rw h (any-append_one p xs a)
  ]

  -- the row that was added is the one that is dropped
  rest_of-append_one :
      (p : A → Bool) (xs : List A) (a : A)
      → any p xs ≡ false
      → p a ≡ true
      → filter (λ x. not (p x)) (xs ++ a ∷ []) ≡ xs
  unfolding any filter
  rest_of-append_one p [] a none' own = rw own refl
  rest_of-append_one p (x ∷ xs) a none' own = elim (Bool-cases (p x)) [
    | inl h ↦ absurd (cc (rw h at none'))
    | inr h ↦ rw h (ap (λ rest. x ∷ rest) (rest_of-append_one p xs a (rw h at none') own))
  ]

abbrev pub with_table : Table → Schema → Schema
with_table t s = record s { tables = s.tables ++ t ∷ [] }

add_table_new :
    (t : Table) (s : Schema)
    → any (is_table t.name) s.tables ≡ false
    → targets_there s.tables t.columns ≡ true
    → add_table t s ≡ done (with_table t s)
unfolding add_table
add_table_new t s new there = rw (new, there) refl

-- a table that no other one refers to is dropped as it was added
drop_table-with_table :
    (t : Table) (s : Schema)
    → any (is_table t.name) s.tables ≡ false
    → any (refers_to t.name) s.tables ≡ false
    → drop_table t.name (with_table t s) ≡ done s
unfolding drop_table
drop_table-with_table t s new free =
    rw
      (
        rest_of-append_one (is_table t.name) s.tables t new (eq_refl t.name),
        any-append_one (is_table t.name) s.tables t,
        new,
        eq_refl t.name,
        free,
      )
      refl

-- A schema to which the migration is new, in which what it makes is not there and nothing refers to
-- it.
pub record IsNew (s : Schema) : Type 0 where
  pub no_type : any (is_type "user_role") s.enum_types ≡ false
  pub no_users : any (is_table "users") s.tables ≡ false
  pub no_profiles : any (is_table "student_profiles") s.tables ≡ false
  pub no_tokens : any (is_table "refresh_tokens") s.tables ≡ false
  pub users_free : any (refers_to "users") s.tables ≡ false
  pub profiles_free : any (refers_to "student_profiles") s.tables ≡ false
  pub tokens_free : any (refers_to "refresh_tokens") s.tables ≡ false
  pub type_free : any (uses_type "user_role") s.tables ≡ false

abbrev pub with_type : EnumType → Schema → Schema
with_type e s = record s { enum_types = s.enum_types ++ e ∷ [] }

abbrev with_users : Schema → Schema
with_users s = with_table users (with_type user_role s)

abbrev with_profiles : Schema → Schema
with_profiles s = with_table student_profiles (with_users s)

abbrev pub upgraded : Schema → Schema
upgraded s = with_table refresh_tokens (with_profiles s)

type_there :
    (s : Schema)
    → any (is_type "user_role") s.enum_types ≡ true
    → (checkfirst : Bool)
    → create_type checkfirst user_role s ≡ (if checkfirst then done s else failed duplicate_object)
unfolding create_type
type_there s there checkfirst = rw there refl

pub type_added : (s : Schema) → any (is_type "user_role") (with_type user_role s).enum_types ≡ true
unfolding any
type_added s =
    any-append_one (is_type "user_role") s.enum_types user_role
    ∙ elim (Bool-cases (any (is_type "user_role") s.enum_types)) [
      | inl h ↦ rw h refl
      | inr h ↦ rw h refl
    ]

-- without the look for the type, no schema can be upgraded
upgrade_unchecked : (s : Schema) → upgrade false s ≡ failed duplicate_object
unfolding upgrade create_type create_table create_types enums_of
upgrade_unchecked s = elim (Bool-cases (any (is_type "user_role") s.enum_types)) [
  | inl there ↦ rw (there, there) refl
  | inr new ↦ rw (new, type_added s) refl
]

pub upgrade-eq : (s : Schema) → IsNew s → upgrade true s ≡ done (upgraded s)
unfolding upgrade create_type create_table create_types enums_of add_table targets_there any
upgrade-eq s new =
    rw
      (
        new.no_type,
        type_added s,
        new.no_users,
        any-append_one (is_table "student_profiles") s.tables users,
        new.no_profiles,
        any-append_one (is_table "users") s.tables users,
        new.no_users,
        any-append_one (is_table "refresh_tokens") (s.tables ++ users ∷ []) student_profiles,
        any-append_one (is_table "refresh_tokens") s.tables users,
        new.no_tokens,
        any-append_one (is_table "users") (s.tables ++ users ∷ []) student_profiles,
        any-append_one (is_table "users") s.tables users,
        new.no_users,
      )
      refl

-- what none of the tables so far has, a further one may lack as well
pub none_added :
    (p : Table → Bool) (tables : List Table) (t : Table)
    → any p tables ≡ false
    → p t ≡ false
    → any p (tables ++ t ∷ []) ≡ false
none_added p tables t h n = any-append_one p tables t ∙ rw (h, n) refl

drop_type-with_type :
    (s : Schema)
    → any (is_type "user_role") s.enum_types ≡ false
    → any (uses_type "user_role") s.tables ≡ false
    → drop_type_if_exists "user_role" (with_type user_role s) ≡ done s
unfolding drop_type_if_exists
drop_type-with_type s new free =
    rw
      (rest_of-append_one (is_type "user_role") s.enum_types user_role new refl, type_added s, free)
      refl

downgrade-upgraded : (s : Schema) → IsNew s → downgrade (upgraded s) ≡ done s
unfolding downgrade any
downgrade-upgraded s new =
    rw
      (drop_table-with_table refresh_tokens (with_profiles s)
        (none_added (is_table "refresh_tokens") (with_users s).tables student_profiles
          (none_added (is_table "refresh_tokens") s.tables users new.no_tokens refl) refl)
        (none_added (refers_to "refresh_tokens") (with_users s).tables student_profiles
          (none_added (refers_to "refresh_tokens") s.tables users new.tokens_free refl) refl))
      (rw
        (drop_table-with_table student_profiles (with_users s)
          (none_added (is_table "student_profiles") s.tables users new.no_profiles refl)
          (none_added (refers_to "student_profiles") s.tables users new.profiles_free refl))
        (rw (drop_table-with_table users (with_type user_role s) new.no_users new.users_free)
          (drop_type-with_type s new.no_type new.type_free)))

-- Where SQLAlchemy looks for the type before it makes it with a table: on a schema that has nothing
-- of what the migration makes, and nothing that refers to it, `upgrade` succeeds and `downgrade`
-- then leads back to that schema. Where SQLAlchemy does not look, `upgrade` fails on every schema.
pub upgrade-downgrade :
    (s : Schema)
    → IsNew s
    → ((t : Schema) × (upgrade true s ≡ done t) × (downgrade t ≡ done s))
      × ((other : Schema) → upgrade false other ≡ failed duplicate_object)
upgrade-downgrade s new =
    ((upgraded s, upgrade-eq s new, downgrade-upgraded s new), upgrade_unchecked)
