-- ===== src/Identity/Invariant.antt =====
-- What is well formed in auth_db, and that signing up, signing in and refreshing keep it.
use campus_hr_b.Prelude.{
  ℕ, ◌≡◌, ◌≤◌, refl, ◌∙◌, inl, inr, Option, none, String, List, [], ◌∷◌, ◌++◌, arith, Bool, true,
  str_eq, eq_iff, Bool-cases, Option-cases,
}
use mathlib.Core.Path.{subst}
use text.Mathlib.TextPositions.{eq_refl}
use campus_hr_b.Common.Enums.{is_student}
use campus_hr_b.Common.Uuid.{to_text}
use campus_hr_b.Session.{Server}
use campus_hr_b.Table.{first, update_where}
use campus_hr_b.Table.Count.{count, count-append_one, count-append_fresh, count_zero_of_missing}
use campus_hr_b.Table.Rows.{count-update_where_same}
use campus_hr_b.Identity.Model.{
  User, StudentProfile, RefreshToken, Db, RegisterRequest, LoginRequest, Libraries, Settings, Stamp,
  has_id, has_email, profile_of, has_jti, is_token,
}
use campus_hr_b.Identity.Service.{
  register_user, add_user, add_profile_of, add_profile, empty_profile, new_token,
}
use campus_hr_b.Identity.Api.{register, login, refresh}
use campus_hr_b.Identity.Sessions.{login_cases}
use campus_hr_b.Identity.Refreshing.{refresh_cases, revoked}

-- the keys and the emails of users are unique, no user has two profiles, and no name of a refresh
-- token is given twice
abbrev pub IsValid : Db → Type 0
IsValid db =
    ((k : ℕ) → count (has_id k) db.users ≤ 1)
    × ((email : String) → count (has_email email) db.users ≤ 1)
    × ((k : ℕ) → count (profile_of k) db.profiles ≤ 1)
    × ((jti : String) → count (has_jti jti) db.refresh_tokens ≤ 1)

-- Rows under a text.
module _ {ℓ} {A : Type ℓ} (key : A → String) where
  abbrev has_text_key : String → A → Bool
  has_text_key k a = str_eq (key a) k

  -- a row of a fresh text keeps the text unique
  text_fresh :
      (xs : List A) (a : A) (j : String)
      → count (has_text_key (key a)) xs ≡ 0
      → count (has_text_key j) xs ≤ 1
      → count (has_text_key j) (xs ++ a ∷ []) ≤ 1
  text_fresh xs a j fresh h = elim (Bool-cases (str_eq (key a) j)) [
    | inl same ↦
        let e : key a ≡ j = (eq_iff (key a) j).0 same in
        subst (λ i. count (has_text_key i) (xs ++ a ∷ []) ≤ 1) e
          (ground (arith, fresh, eq_refl (key a), count-append_one (has_text_key (key a)) xs a))
    | inr other ↦ ground (arith, other, h, count-append_one (has_text_key j) xs a)
  ]

-- a row that is revoked keeps its name
pub count-revoke :
    (j : String) (k : ℕ) (rows : List RefreshToken)
    → count (has_jti j) (update_where (is_token k) revoked rows) ≡ count (has_jti j) rows
count-revoke j k rows = count-update_where_same (has_jti j) (is_token k) revoked rows (λ a e. refl)

module _ {R : Type 0} (s : Server Db R) (valid : IsValid s.db) where
  pub login-IsValid :
      (lib : Libraries R) (settings : Settings) (now jti row_id : ℕ) (request : LoginRequest)
      → count (has_jti (to_text jti)) s.db.refresh_tokens ≡ 0
      → IsValid (login lib settings now jti row_id request s).1.db
  unfolding new_token
  login-IsValid lib settings now jti row_id request fresh =
      elim (login_cases lib settings now jti row_id request s) [
        | inl refused ↦ rw refused.1 valid
        | inr (user, _, _, _, done) ↦ rw done (
          valid.0,
          valid.1,
          valid.2,
          λ j.
              text_fresh (λ row. row.token_jti) s.db.refresh_tokens
                (new_token settings now row_id user (to_text jti)) j fresh (valid.3 j),
        )
      ]

  pub refresh-IsValid :
      (lib : Libraries R) (settings : Settings) (now jti row_id : ℕ) (cookie : Option String)
      → count (has_jti (to_text jti)) s.db.refresh_tokens ≡ 0
      → IsValid (refresh lib settings now jti row_id cookie s).1.db
  unfolding new_token
  refresh-IsValid lib settings now jti row_id cookie fresh =
      elim (refresh_cases lib settings now jti row_id cookie s) [
        | inl refused ↦ rw refused.1 valid
        | inr (_, _, _, row, user, _, _, _, _, _, _, _, done) ↦
            let rows = update_where (is_token row.id) revoked s.db.refresh_tokens in
            rw done (
              valid.0,
              valid.1,
              valid.2,
              λ j.
                  text_fresh (λ row. row.token_jti) rows
                    (new_token settings now row_id user (to_text jti)) j
                    (count-revoke (to_text jti) row.id s.db.refresh_tokens ∙ fresh)
                    (rw (count-revoke j row.id s.db.refresh_tokens) (valid.3 j)),
            )
      ]

  registered :
      (request : RegisterRequest) (user : User) (profile : StudentProfile)
      → user.email ≡ request.email
      → count (has_id user.id) s.db.users ≡ 0
      → count (profile_of profile.user_id) s.db.profiles ≡ 0
      → first (has_email request.email) s.db.users ≡ none
      → IsValid (record s.db { users = s.db.users ++ user ∷ [] })
        × IsValid (record s.db {
          users = s.db.users ++ user ∷ [];
          profiles = s.db.profiles ++ profile ∷ [];
        })
  registered request user profile same fresh unprofiled new =
      let ids : (k : ℕ) → count (has_id k) (s.db.users ++ user ∷ []) ≤ 1 =
        λ k. count-append_fresh (λ u. u.id) s.db.users user k fresh (valid.0 k) in
      let none_there = count_zero_of_missing (has_email request.email) s.db.users new in
      let emails : (email : String) → count (has_email email) (s.db.users ++ user ∷ []) ≤ 1 =
        λ email.
          text_fresh (λ u. u.email) s.db.users user email (rw same none_there) (valid.1 email) in
      (
        (ids, emails, valid.2, valid.3),
        (
          ids,
          emails,
          λ k. count-append_fresh (λ p. p.user_id) s.db.profiles profile k unprofiled (valid.2 k),
          valid.3,
        ),
      )

  pub register-IsValid :
      (lib : Libraries R) (salt : ℕ) (row : Stamp) (profile_row : ℕ) (request : RegisterRequest)
      → count (has_id row.id) s.db.users ≡ 0
      → count (profile_of row.id) s.db.profiles ≡ 0
      → IsValid (register lib salt row profile_row request s).1.db
  unfolding register register_user add_user add_profile_of add_profile empty_profile
  register-IsValid lib salt row profile_row request fresh unprofiled =
      elim (Option-cases (first (has_email request.email) s.db.users)) [
        | inr (user, e) ↦ rw e valid
        | inl new ↦
            let user : User = record {
              id = row.id;
              email = request.email;
              password_hash = lib.hash salt request.password;
              role = request.role;
              is_active = true;
              created_at = row.now;
            } in
            let made =
              registered request user (empty_profile profile_row row.id) refl fresh unprofiled
                new in
            elim (Bool-cases (is_student request.role)) [
              | inl yes' ↦ rw (new, yes') made.1
              | inr no' ↦ rw (new, no') made.0
            ]
      ]
