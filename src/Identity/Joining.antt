-- ===== src/Identity/Joining.antt =====
-- A registration, and the sign-in after it.
use text.Mathlib.TextPositions.{eq_refl}
use campus_hr_b.Prelude.{
  ℕ, ◌≡◌, refl, ap, sym, ◌∙◌, ◌⊎◌, inl, inr, true, none, some, List, [], ◌∷◌, ◌++◌, Option-cases,
}
use campus_hr_b.Common.Enums.{UserRole, student, coordinator}
use campus_hr_b.Session.{Server, ok, http_exception, Refused}
use campus_hr_b.Table.{first}
use campus_hr_b.Table.Count.{count_zero_of_missing}
use campus_hr_b.Table.Rows.{first-append_one}
use campus_hr_b.Identity.Model.{
  User, StudentProfile, Libraries, Settings, Stamp, RegisterRequest, LoginRequest, Response, Db,
  has_email,
}
use campus_hr_b.Identity.Service.{
  register_user, empty_profile, add_user, add_profile, add_profile_of,
}
use campus_hr_b.Identity.Api.{register, login}
use campus_hr_b.Identity.Responses.{user_response}
use campus_hr_b.Identity.Sessions.{login_accepts, sign_in_response, sign_in_state}

module _ {R : Type 0} (lib : Libraries R) (salt : ℕ) (row : Stamp) (profile_row : ℕ)
    (request : RegisterRequest) (s : Server Db R) where
  abbrev pub joined : User
  joined = record {
    id = row.id;
    email = request.email;
    password_hash = lib.hash salt request.password;
    role = request.role;
    is_active = true;
    created_at = row.now;
  }

  -- a new student has a profile
  abbrev pub profiles_with : UserRole → List StudentProfile
  profiles_with student = s.db.profiles ++ empty_profile profile_row row.id ∷ []
  profiles_with coordinator = s.db.profiles

  abbrev pub joined_users : List User
  joined_users = s.db.users ++ joined ∷ []

  abbrev pub after_joining : Server Db R
  after_joining = record s {
    db = record s.db { users = joined_users; profiles = profiles_with request.role };
  }

  -- The email is taken, and the route refuses and changes nothing, or it is new and the user is
  -- added.
  pub register_cases :
      ((user : User) × (first (has_email request.email) s.db.users ≡ some user)
        × Refused (register lib salt row profile_row request s) s)
      ⊎ ((first (has_email request.email) s.db.users ≡ none)
          × (register lib salt row profile_row request s ≡ (ok joined, after_joining)))
  unfolding register register_user add_user add_profile_of add_profile
  register_cases = elim (Option-cases (first (has_email request.email) s.db.users)) [
    | inr (user, e) ↦
        inl (user, e, rw e ((http_exception 400 "Email already registered", refl), refl))
    | inl e ↦ inr (e, role_case request.role refl e)
  ]
    where
      role_case :
          (r : UserRole)
          → request.role ≡ r
          → first (has_email request.email) s.db.users ≡ none
          → register lib salt row profile_row request s ≡ (ok joined, after_joining)
      role_case student r e = rw (e, r) refl
      role_case coordinator r e = rw (e, r) refl

  pub joined_found :
      first (has_email request.email) s.db.users ≡ none
      → first (has_email request.email) joined_users ≡ some joined
  joined_found e =
      first-append_one (has_email request.email) s.db.users joined
      ∙ rw (count_zero_of_missing (has_email request.email) s.db.users e, eq_refl request.email)
          refl

-- Where passlib verifies the password that was hashed: after a registration that is answered with
-- success, a sign-in with that email and that password, at any time, is answered with success and
-- with the user who registered, who is active and has the role that was asked for, whichever it is.
-- The sign-in changes no user and no profile.
pub register-login :
    {R : Type 0} (lib : Libraries R) (salt : ℕ) (row : Stamp) (profile_row : ℕ)
    (request : RegisterRequest) (s t : Server Db R) (user : User) (settings : Settings)
    (now jti row_id : ℕ)
    → register lib salt row profile_row request s ≡ (ok user, t)
    → lib.verify request.password (lib.hash salt request.password) ≡ true
    → (response : Response User) × (u : Server Db R) × (login lib settings now jti row_id
          (record { email = request.email; password = request.password })
          t
        ≡ (ok response, u))
      × (user_response response.body
          ≡ record { id = row.id; email = request.email; role = request.role; is_active = true })
      × (u.db.users ≡ s.db.users ++ user ∷ [])
      × (u.db.profiles ≡ t.db.profiles)
register-login lib salt row profile_row request s t user settings now jti row_id done right =
    elim (register_cases lib salt row profile_row request s) [
      | inl (_, _, refused) ↦ cc refused.0.1
      | inr (new, made) ↦
          let asked : LoginRequest = record {
            email = request.email;
            password = request.password;
          } in
          let same = sym made ∙ done in
          let there = ap (λ z. z.1) same in
          let member = joined lib salt row profile_row request s in
          let found : first (has_email request.email) t.db.users ≡ some member =
            ap (λ v. first (has_email request.email) v.db.users) (sym there)
            ∙ joined_found lib salt row profile_row request s new in
          (
            sign_in_response lib settings now jti row_id asked t member,
            sign_in_state lib settings now jti row_id asked t member,
            login_accepts lib settings now jti row_id asked t member found right refl,
            refl,
            ap (λ v. v.db.users) (sym there)
                ∙ ap (λ x. s.db.users ++ x ∷ []) (value_of (ap (λ z. z.0) same)),
            refl,
          )
    ]
  where
    value_of : {a b : User} → ok a ≡ ok b → a ≡ b
    value_of q = cc q
