-- ===== src/Scripts/Seeding.antt =====
-- What the seed scripts leave in auth_db, and what a second run of them does.
use campus_hr_b.Prelude.{
  ℕ, suc, ◌≡◌, refl, ap, sym, ◌∙◌, inl, inr, String, none, some, List, [], ◌∷◌,
}
use campus_hr_b.Table.{first}
use campus_hr_b.Common.Enums.{UserRole, coordinator}
use campus_hr_b.Session.{Server, err, data_error}
use campus_hr_b.Identity.Schema.{Schema, done}
use campus_hr_b.Identity.Metadata.{create_all, accepts}
use campus_hr_b.Identity.Migrating.{IsNew}
use campus_hr_b.Identity.Labels.{labels_differ}
use campus_hr_b.Table.Rows.{first-append_found}
use campus_hr_b.Identity.Model.{User, Libraries, Db, has_email}
use campus_hr_b.Identity.Joining.{register_cases, joined, joined_found}
use campus_hr_b.Scripts.Seeds.{
  UserRow, seed_coordinator, sample_users, registration_of, Draws, seed_user, seed_users,
  seed_dev_data,
}

-- the email is one of a user
abbrev Taken : {R : Type 0} → String → Server Db R → Type 0
Taken email s = (user : User) × (first (has_email email) s.db.users ≡ some user)

module _ {R : Type 0} (lib : Libraries R) (draws : Draws) where
  -- a user who is there is found as before
  seed_user_keeps :
      (i : ℕ) (seed : String × UserRole) (s : Server Db R) (email : String) (user : User)
      → first (has_email email) s.db.users ≡ some user
      → first (has_email email) (seed_user lib draws i seed s).db.users ≡ some user
  seed_user_keeps i seed s email user e =
      elim (register_cases lib (draws.salts i) (draws.rows i) (draws.profile_rows i)
        (registration_of seed) s) [
          | inl (_, _, refused) ↦ rw refused.1 e
          | inr (_, made) ↦
              ap (λ r. first (has_email email) r.1.db.users) made
              ∙ first-append_found (has_email email) s.db.users _ e
        ]

  seed_users_keeps :
      (i : ℕ) (seeds : List (String × UserRole)) (s : Server Db R) (email : String) (user : User)
      → first (has_email email) s.db.users ≡ some user
      → first (has_email email) (seed_users lib draws i seeds s).db.users ≡ some user
  unfolding seed_users
  seed_users_keeps i [] s email user e = e
  seed_users_keeps i (seed ∷ seeds) s email user e =
      seed_users_keeps (suc i) seeds (seed_user lib draws i seed s) email user
        (seed_user_keeps i seed s email user e)

  seed_user_adds :
      (i : ℕ) (seed : String × UserRole) (s : Server Db R)
      → first (has_email seed.0) s.db.users ≡ none
      → first (has_email seed.0) (seed_user lib draws i seed s).db.users
        ≡ some (
            joined lib
              (draws.salts i)
              (draws.rows i)
              (draws.profile_rows i)
              (registration_of seed)
              s)
  seed_user_adds i seed s new =
      elim (register_cases lib (draws.salts i) (draws.rows i) (draws.profile_rows i)
        (registration_of seed) s) [
          | inl (_, e, _) ↦ cc (new, e)
          | inr (_, made) ↦
              ap (λ r. first (has_email seed.0) r.1.db.users) made
              ∙ joined_found lib (draws.salts i) (draws.rows i) (draws.profile_rows i)
                  (registration_of seed) s new
        ]

  seed_user_takes :
      (i : ℕ) (seed : String × UserRole) (s : Server Db R)
      → Taken seed.0 (seed_user lib draws i seed s)
  seed_user_takes i seed s =
      elim (register_cases lib (draws.salts i) (draws.rows i) (draws.profile_rows i)
        (registration_of seed) s) [
          | inl (user, e, refused) ↦ (user, rw refused.1 e)
          | inr (new, _) ↦ (
            joined lib (draws.salts i) (draws.rows i) (draws.profile_rows i) (registration_of seed)
                s,
            seed_user_adds i seed s new,
          )
        ]

  -- a user who is there already is refused, and nothing changes
  seed_user_again :
      (i : ℕ) (seed : String × UserRole) (s : Server Db R)
      → Taken seed.0 s
      → seed_user lib draws i seed s ≡ s
  seed_user_again i seed s (user, e) =
      elim (register_cases lib (draws.salts i) (draws.rows i) (draws.profile_rows i)
        (registration_of seed) s) [ inl (_, _, refused) ↦ refused.1 | inr (new, _) ↦ cc (e, new) ]

abbrev AllTaken : {R : Type 0} → List (String × UserRole) → Server Db R → Type 0
AllTaken [] s = Unit {0}
AllTaken (seed ∷ seeds) s = Taken seed.0 s × AllTaken seeds s

module _ {R : Type 0} (lib : Libraries R) where
  seed_users_take :
      (draws : Draws) (i : ℕ) (seeds : List (String × UserRole)) (s : Server Db R)
      → AllTaken seeds (seed_users lib draws i seeds s)
  unfolding seed_users
  seed_users_take draws i [] s = tt
  seed_users_take draws i (seed ∷ seeds) s =
      let t = seed_user lib draws i seed s in
      let (user, e) = seed_user_takes lib draws i seed s in
      (
        (user, seed_users_keeps lib draws (suc i) seeds t seed.0 user e),
        seed_users_take draws (suc i) seeds t,
      )

  seed_users_again :
      (draws : Draws) (i : ℕ) (seeds : List (String × UserRole)) (s : Server Db R)
      → AllTaken seeds s
      → seed_users lib draws i seeds s ≡ s
  unfolding seed_users
  seed_users_again draws i [] s all = refl
  seed_users_again draws i (seed ∷ seeds) s all =
      let same = seed_user_again lib draws i seed s all.0 in
      ap (seed_users lib draws (suc i) seeds) same ∙ seed_users_again draws (suc i) seeds s all.1

  -- Whatever auth_db holds, seed-dev-data.py leaves it alone when it is run once more, with any
  -- salts, keys and times of the second run.
  pub seed_dev_data_again :
      (draws later : Draws) (s : Server Db R)
      → seed_dev_data lib later (seed_dev_data lib draws s) ≡ seed_dev_data lib draws s
  unfolding seed_dev_data
  seed_dev_data_again draws later s =
      seed_users_again later 0 sample_users (seed_dev_data lib draws s)
        (seed_users_take draws 0 sample_users s)

-- On the tables that the start of the service has made in a new schema, seed-coordinator.py always
-- fails and changes nothing.
pub seed_coordinator_fails :
    {R : Type 0} (lib : Libraries R) (s t : Schema) (salt : ℕ) (rows : List UserRow)
    → IsNew s
    → create_all s ≡ done t
    → seed_coordinator lib t salt rows ≡ (err data_error, rows)
unfolding seed_coordinator
seed_coordinator_fails lib s t salt rows new made =
    let (_, u, _, _, started, labels) = labels_differ s new in
    let same : u ≡ t = schema_of (sym started ∙ made) in
    rw (ap (accepts "user_role" "coordinator") (sym same) ∙ (labels coordinator).3) refl
  where
    schema_of : {a b : Schema} → done a ≡ done b → a ≡ b
    schema_of q = cc q
