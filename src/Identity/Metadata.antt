-- ===== src/Identity/Metadata.antt =====
-- The tables that app/models.py of services/identity-service declares, and
-- `Base.metadata.create_all`, which the start of the service calls.
use campus_hr_b.Prelude.{
  String, Bool, true, false, Option, none, some, [], ◌∷◌, str_eq, ◌&&◌, if◌then◌else◌,
}
use campus_hr_b.Common.Enums.{UserRole, student, coordinator}
use campus_hr_b.Identity.Schema.{
  EnumType, Column, ColumnType, uuid, boolean, timestamp_tz, float, integer, jsonb, varchar, enum,
  Table, Schema, Outcome, done, and_then, any, is_type, is_table, create_type, add_table,
}

-- a `mapped_column` of a type that may not be None, with no more said of it
abbrev mapped_column : String → ColumnType → Column
mapped_column name column_type = record {
  name = name;
  column_type = column_type;
  primary_key = false;
  nullable = false;
  unique = false;
  index = false;
  foreign_key = none;
  server_default = none;
}

-- one of `Mapped[... | None]`
abbrev optional_column : String → ColumnType → Column
optional_column name column_type = record (mapped_column name column_type) { nullable = true }

abbrev id_column : Column
id_column = record (mapped_column "id" uuid) { primary_key = true }

abbrev users_id : Option (String × String)
users_id = some ("users", "id")

-- the name of the member, which is what SQLAlchemy stores of a Python enumeration
abbrev pub role_name : UserRole → String
role_name student = "STUDENT"
role_name coordinator = "COORDINATOR"

-- `Enum(UserRole, name="user_role")`
abbrev pub user_role_enum : EnumType
user_role_enum = record {
  name = "user_role";
  labels = role_name student ∷ role_name coordinator ∷ [];
}

abbrev pub user_table : Table
user_table = record {
  name = "users";
  columns =
      id_column
      ∷ record (mapped_column "email" (varchar 255)) { unique = true; index = true }
      ∷ mapped_column "password_hash" (varchar 255)
      ∷ mapped_column "role" (enum user_role_enum)
      ∷ mapped_column "is_active" boolean
      ∷ record (mapped_column "created_at" timestamp_tz) { server_default = some "now()" }
      ∷ [];
}

abbrev pub student_profile_table : Table
student_profile_table = record {
  name = "student_profiles";
  columns =
      id_column
      ∷ record (mapped_column "user_id" uuid) { foreign_key = users_id; unique = true }
      ∷ optional_column "name" (varchar 255)
      ∷ optional_column "cgpa" float
      ∷ optional_column "branch" (varchar 100)
      ∷ optional_column "year" integer
      ∷ optional_column "phone" (varchar 20)
      ∷ optional_column "skills" jsonb
      ∷ record (mapped_column "updated_at" timestamp_tz) { server_default = some "now()" }
      ∷ [];
}

abbrev pub refresh_token_table : Table
refresh_token_table = record {
  name = "refresh_tokens";
  columns =
      id_column
      ∷ record (mapped_column "user_id" uuid) { foreign_key = users_id; index = true }
      ∷ record (mapped_column "token_jti" (varchar 64)) { unique = true; index = true }
      ∷ mapped_column "expires_at" timestamp_tz
      ∷ mapped_column "revoked" boolean
      ∷ [];
}

-- a table that is there is left as it is
unfoldable pub create_missing : Table → Schema → Outcome
unfolding any add_table
create_missing t s = if any (is_table t.name) s.tables then done s else add_table t s

-- `Base.metadata.create_all(bind=engine)`: the types that are missing, and the tables
unfoldable pub create_all : Schema → Outcome
unfolding create_type create_missing
create_all s = and_then (create_type true user_role_enum s) λ s.
    and_then (create_missing user_table s) λ s.
      and_then (create_missing student_profile_table s) λ s. create_missing refresh_token_table s

-- the database takes the text for a value of the enumeration type
unfoldable pub accepts : String → String → Schema → Bool
unfolding any
accepts name label s = any (λ e. is_type name e && any (λ l. str_eq l label) e.labels) s.enum_types
