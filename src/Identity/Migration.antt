-- ===== src/Identity/Migration.antt =====
-- alembic/versions/001_initial.py of services/identity-service, and the metadata of app/models.py
-- with the `create_all` of the service's start.
use campus_hr_b.Prelude.{String, Bool, true, false, Option, none, some, [], ◌∷◌}
use campus_hr_b.Identity.Schema.{
  EnumType, Column, ColumnType, uuid, boolean, timestamp_tz, float, integer, jsonb, varchar, enum,
  Table, Schema, Outcome, and_then, create_type, create_table, drop_table, drop_type_if_exists,
}

-- a column that may be null, with no more said of it
abbrev plain : String → ColumnType → Column
plain name column_type = record {
  name = name;
  column_type = column_type;
  primary_key = false;
  nullable = true;
  unique = false;
  index = false;
  foreign_key = none;
  server_default = none;
}

abbrev not_null : String → ColumnType → Column
not_null name column_type = record (plain name column_type) { nullable = false }

abbrev key_column : Column
key_column = record (not_null "id" uuid) { primary_key = true }

abbrev to_users : Option (String × String)
to_users = some ("users", "id")

-- `postgresql.ENUM("student", "coordinator", name="user_role")`
abbrev pub user_role : EnumType
user_role = record { name = "user_role"; labels = "student" ∷ "coordinator" ∷ [] }

abbrev pub users : Table
users = record {
  name = "users";
  columns =
      key_column
      ∷ record (not_null "email" (varchar 255)) { unique = true }
      ∷ not_null "password_hash" (varchar 255)
      ∷ not_null "role" (enum user_role)
      ∷ record (not_null "is_active" boolean) { server_default = some "true" }
      ∷ record (plain "created_at" timestamp_tz) { server_default = some "now()" }
      ∷ [];
}

abbrev pub student_profiles : Table
student_profiles = record {
  name = "student_profiles";
  columns =
      key_column
      ∷ record (plain "user_id" uuid) { foreign_key = to_users; unique = true }
      ∷ plain "name" (varchar 255)
      ∷ plain "cgpa" float
      ∷ plain "branch" (varchar 100)
      ∷ plain "year" integer
      ∷ plain "phone" (varchar 20)
      ∷ plain "skills" jsonb
      ∷ record (plain "updated_at" timestamp_tz) { server_default = some "now()" }
      ∷ [];
}

abbrev pub refresh_tokens : Table
refresh_tokens = record {
  name = "refresh_tokens";
  columns =
      key_column
      ∷ record (plain "user_id" uuid) { foreign_key = to_users }
      ∷ record (plain "token_jti" (varchar 64)) { unique = true }
      ∷ plain "expires_at" timestamp_tz
      ∷ record (plain "revoked" boolean) { server_default = some "false" }
      ∷ [];
}

-- `checkfirst` says whether SQLAlchemy looks for a type before it makes it with a table
unfoldable pub upgrade : Bool → Schema → Outcome
unfolding create_type create_table
upgrade checkfirst s = and_then (create_type true user_role s) λ s.
    and_then (create_table checkfirst users s) λ s.
      and_then (create_table checkfirst student_profiles s)
        λ s. create_table checkfirst refresh_tokens s

unfoldable pub downgrade : Schema → Outcome
unfolding drop_table drop_type_if_exists
downgrade s = and_then (drop_table "refresh_tokens" s) λ s.
    and_then (drop_table "student_profiles" s)
      λ s. and_then (drop_table "users" s) λ s. drop_type_if_exists "user_role" s
