-- ===== src/Tests/Schemas.antt =====
-- The schema of auth_db before anything but alembic's own table is in it.
use campus_hr_b.Prelude.{◌≡◌, refl, true, false, none, [], ◌∷◌, str_eq}
use campus_hr_b.Common.Enums.{UserRole, role_value}
use campus_hr_b.Session.{err, data_error}
use campus_hr_b.Identity.Model.{Libraries}
use campus_hr_b.Identity.Schema.{
  Schema, varchar, done, failed, duplicate_object, any, create_type, add_table, targets_there,
}
use campus_hr_b.Identity.Migration.{upgrade, downgrade}
use campus_hr_b.Identity.Metadata.{role_name, create_all, create_missing, accepts}
use campus_hr_b.Identity.Migrating.{IsNew, upgrade-downgrade}
use campus_hr_b.Identity.Labels.{labels_differ, started}
use campus_hr_b.Scripts.Seeds.{UserRow, seed_coordinator}
use campus_hr_b.Scripts.Seeding.{seed_coordinator_fails}

abbrev auth_db : Schema
auth_db = record {
  enum_types = [];
  tables =
      record {
        name = "alembic_version";
        columns =
            record {
              name = "version_num";
              column_type = varchar 32;
              primary_key = true;
              nullable = false;
              unique = false;
              index = false;
              foreign_key = none;
              server_default = none;
            }
            ∷ [];
      }
      ∷ [];
}

auth_db-IsNew : IsNew auth_db
unfolding any
auth_db-IsNew = record {
  no_type = refl;
  no_users = refl;
  no_profiles = refl;
  no_tokens = refl;
  users_free = refl;
  profiles_free = refl;
  tokens_free = refl;
  type_free = refl;
}

upgrade-downgrade_example :
    ((t : Schema) × (upgrade true auth_db ≡ done t) × (downgrade t ≡ done auth_db))
    × ((other : Schema) → upgrade false other ≡ failed duplicate_object)
upgrade-downgrade_example = upgrade-downgrade auth_db auth_db-IsNew

labels_differ_example :
    (t u : Schema) × (upgrade true auth_db ≡ done t)
    × (create_all t ≡ done t)
    × (create_all auth_db ≡ done u)
    × ((role : UserRole)
        → (accepts "user_role" (role_value role) t ≡ true)
          × (accepts "user_role" (role_name role) t ≡ false)
          × (accepts "user_role" (role_name role) u ≡ true)
          × (accepts "user_role" (role_value role) u ≡ false))
labels_differ_example = labels_differ auth_db auth_db-IsNew

abbrev plain : Libraries Unit
plain = record {
  encode = λ claims key algorithm. "";
  decode = λ now token key algorithm. none;
  hash = λ salt password. password;
  verify = λ password hash. str_eq password hash;
  setex = λ now key ttl value r. r;
  exists_key = λ now key r. false;
}

start_runs : create_all auth_db ≡ done (started auth_db)
unfolding create_all create_type create_missing add_table targets_there any
start_runs = refl

abbrev someone : UserRow
someone = record {
  id = 1;
  email = "x@campus.edu";
  password_hash = "h";
  role = "STUDENT";
  is_active = true;
}

seed_coordinator_fails_example :
    seed_coordinator plain (started auth_db) 3 (someone ∷ []) ≡ (err data_error, someone ∷ [])
seed_coordinator_fails_example =
    seed_coordinator_fails plain auth_db (started auth_db) 3 (someone ∷ []) auth_db-IsNew start_runs
