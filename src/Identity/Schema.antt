-- ===== src/Identity/Schema.antt =====
-- What services/identity-service asks of PostgreSQL's schema: tables and enumeration types, and the
-- statements that make and drop them.
use campus_hr_b.Prelude.{
  ℕ, String, Bool, true, false, Option, none, some, List, [], ◌∷◌, ◌++◌, not, ◌&&◌, ◌||◌, str_eq,
  if◌then◌else◌,
}
use campus_hr_b.Table.{filter}

pub record EnumType : Type 0 where
  pub name : String
  pub labels : List String

pub data ColumnType : Type 0 where
  uuid boolean timestamp_tz float integer jsonb : ColumnType
  varchar : ℕ → ColumnType
  enum : EnumType → ColumnType

pub record Column : Type 0 where
  pub name : String
  pub column_type : ColumnType
  pub primary_key : Bool
  pub nullable : Bool
  pub unique : Bool
  pub index : Bool
  -- table and column
  pub foreign_key : Option (String × String)
  pub server_default : Option String

pub record Table : Type 0 where
  pub name : String
  pub columns : List Column

pub record Schema : Type 0 where
  pub enum_types : List EnumType
  pub tables : List Table

pub data DdlError : Type 0 where
  duplicate_object duplicate_table undefined_table dependent_objects_still_exist : DdlError

pub data Outcome : Type 0 where
  done : Schema → Outcome
  failed : DdlError → Outcome

abbrev pub and_then : Outcome → (Schema → Outcome) → Outcome
and_then (done s) next = next s
and_then (failed e) next = failed e

module _ {ℓ} {A : Type ℓ} where
  unfoldable pub any : (A → Bool) → List A → Bool
  any p [] = false
  any p (x ∷ xs) = let rest = any p xs in p x || rest

abbrev pub is_type : String → EnumType → Bool
is_type name e = str_eq e.name name

abbrev pub is_table : String → Table → Bool
is_table name t = str_eq t.name name

abbrev to_table : String → Option (String × String) → Bool
to_table name none = false
to_table name (some (table, column)) = str_eq table name

abbrev of_type : String → ColumnType → Bool
of_type name (enum e) = str_eq e.name name
of_type name _ = false

-- a column of the table has a foreign key to a table
abbrev pub refers_to : String → Table → Bool
refers_to name t = any (λ c. to_table name c.foreign_key) t.columns

-- a column of the table has an enumeration type
abbrev pub uses_type : String → Table → Bool
uses_type name t = any (λ c. of_type name c.column_type) t.columns

abbrev target_there : List Table → Option (String × String) → Bool
target_there tables none = true
target_there tables (some (table, column)) = any (is_table table) tables

unfoldable pub targets_there : List Table → List Column → Bool
targets_there tables [] = true
targets_there tables (c ∷ columns) =
    let rest = targets_there tables columns in target_there tables c.foreign_key && rest

abbrev onto_enums : ColumnType → List EnumType → List EnumType
onto_enums (enum e) rest = e ∷ rest
onto_enums _ rest = rest

-- the enumeration types of the columns
unfoldable pub enums_of : List Column → List EnumType
enums_of [] = []
enums_of (c ∷ columns) = onto_enums c.column_type (enums_of columns)

-- `ENUM.create(bind, checkfirst)`
unfoldable pub create_type : Bool → EnumType → Schema → Outcome
unfolding any
create_type checkfirst e s =
    if any (is_type e.name) s.enum_types
    then (if checkfirst then done s else failed duplicate_object)
    else done (record s { enum_types = s.enum_types ++ e ∷ [] })

unfoldable pub create_types : Bool → List EnumType → Schema → Outcome
unfolding create_type
create_types checkfirst [] s = done s
create_types checkfirst (e ∷ es) s =
    and_then (create_type checkfirst e s) (create_types checkfirst es)

-- CREATE TABLE
unfoldable pub add_table : Table → Schema → Outcome
unfolding targets_there
add_table t s =
    if any (is_table t.name) s.tables
    then failed duplicate_table
    else if not (targets_there s.tables t.columns)
    then failed undefined_table
    else done (record s { tables = s.tables ++ t ∷ [] })

-- `op.create_table`: SQLAlchemy makes the types of the columns before the table, and may look first
-- whether they are there
unfoldable pub create_table : Bool → Table → Schema → Outcome
unfolding create_types add_table enums_of
create_table checkfirst t s =
    and_then (create_types checkfirst (enums_of t.columns) s) (add_table t)

-- `op.drop_table`
unfoldable pub drop_table : String → Schema → Outcome
unfolding any
drop_table name s =
    let others = filter (λ t. not (is_table name t)) s.tables in
    if not (any (is_table name) s.tables)
    then failed undefined_table
    else if any (refers_to name) others
    then failed dependent_objects_still_exist
    else done (record s { tables = others })

-- DROP TYPE IF EXISTS
unfoldable pub drop_type_if_exists : String → Schema → Outcome
unfolding any
drop_type_if_exists name s =
    if any (is_type name) s.enum_types && any (uses_type name) s.tables
    then failed dependent_objects_still_exist
    else done (record s { enum_types = filter (λ e. not (is_type name e)) s.enum_types })
