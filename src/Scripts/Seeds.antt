-- ===== src/Scripts/Seeds.antt =====
-- scripts/seed-coordinator.py and scripts/seed-dev-data.py. A request that the script sends is a
-- call of the route; the HTTPError of an answer that is no success is caught there.
use campus_hr_b.Prelude.{
  Bool, not, str_eq, ◌==◌, ℕ, suc, String, true, List, [], ◌∷◌, ◌++◌, is_some, if◌then◌else◌,
}
use campus_hr_b.Common.Enums.{UserRole, student, coordinator}
use campus_hr_b.Session.{Exec, Server, ok, err, integrity_error, data_error}
use campus_hr_b.Table.{first}
use campus_hr_b.Identity.Model.{Libraries, Stamp, RegisterRequest, Db}
use campus_hr_b.Identity.Schema.{Schema}
use campus_hr_b.Identity.Metadata.{accepts}
use campus_hr_b.Identity.Api.{register}

-- UUID("11111111-1111-1111-1111-111111111111")
abbrev pub coordinator_id : ℕ
coordinator_id = 22685491128062564230891640495451214097

-- `EMAIL`
abbrev pub coordinator_email : String
coordinator_email = "coordinator@campus.edu"

-- `PASSWORD`
abbrev pub password : String
password = "password123"

-- a row of the table `users` as the database has it, with the text of the role
pub record UserRow : Type 0 where
  pub id : ℕ
  pub email : String
  pub password_hash : String
  pub role : String
  pub is_active : Bool

abbrev pub row_has_email : String → UserRow → Bool
row_has_email email row = str_eq row.email email

abbrev pub row_has_id : ℕ → UserRow → Bool
row_has_id k row = row.id == k

abbrev pub seed_row : {R : Type 0} → Libraries R → ℕ → UserRow
seed_row lib salt = record {
  id = coordinator_id;
  email = coordinator_email;
  password_hash = lib.hash salt password;
  role = "coordinator";
  is_active = true;
}

-- `main` of seed-coordinator.py, on a table of a schema. The statement fails where the type of the
-- column does not have the role's text; a conflict on the email does nothing, and one on the key is
-- an error.
unfoldable pub seed_coordinator : {R : Type 0} → Libraries R → Schema → ℕ → Exec (List UserRow) Unit
seed_coordinator lib schema salt rows =
    if not (accepts "user_role" "coordinator" schema)
    then (err data_error, rows)
    else if is_some (first (row_has_email coordinator_email) rows)
    then (ok tt, rows)
    else if is_some (first (row_has_id coordinator_id) rows)
    then (err integrity_error, rows)
    else (ok tt, rows ++ seed_row lib salt ∷ [])

-- `users`
abbrev pub sample_users : List (String × UserRole)
sample_users =
    ("coordinator@campus.edu", coordinator)
    ∷ ("rahul@campus.edu", student)
    ∷ ("priya@campus.edu", student)
    ∷ []

abbrev pub registration_of : String × UserRole → RegisterRequest
registration_of user = record { email = user.0; password = password; role = user.1 }

-- What the requests have to do with chance and time, for the request of each place.
pub record Draws : Type 0 where
  pub salts : ℕ → ℕ
  pub rows : ℕ → Stamp
  pub profile_rows : ℕ → ℕ

module _ {R : Type 0} (lib : Libraries R) (draws : Draws) where
  abbrev pub seed_user : ℕ → String × UserRole → Server Db R → Server Db R
  seed_user i user s =
      (register lib (draws.salts i) (draws.rows i) (draws.profile_rows i) (registration_of user)
        s).1

  -- the loop over `users`
  unfoldable pub seed_users : ℕ → List (String × UserRole) → Server Db R → Server Db R
  seed_users i [] s = s
  seed_users i (user ∷ users) s = seed_users (suc i) users (seed_user i user s)

  -- `main` of seed-dev-data.py
  unfoldable pub seed_dev_data : Server Db R → Server Db R
  unfolding seed_users
  seed_dev_data = seed_users 0 sample_users
