-- ===== src/Identity/Profiles.antt =====
-- Reading and writing profiles keeps auth_db well formed.
use campus_hr_b.Prelude.{ℕ, ◌≡◌, refl, inl, inr, none, [], ◌∷◌, ◌++◌, ◌==◌, Option-cases}
use campus_hr_b.Common.Enums.{CurrentUser, UserRole, student, coordinator}
use campus_hr_b.Session.{Server}
use campus_hr_b.Table.{first, update_where}
use campus_hr_b.Table.Count.{count-append_fresh, count_zero_of_missing}
use campus_hr_b.Table.Rows.{count-update_where_same}
use campus_hr_b.Identity.Model.{Db, ProfileUpdate, has_id, profile_of}
use campus_hr_b.Identity.Service.{
  add_profile, empty_profile, get_or_create_profile, found_or_new, update_profile, updated,
}
use campus_hr_b.Identity.Api.{get_profile, put_profile}
use campus_hr_b.Identity.Invariant.{IsValid}

put-IsValid :
    (db : Db) (k : ℕ) (request : ProfileUpdate)
    → IsValid db
    → IsValid (record db { profiles = update_where (λ p. p.id == k) (updated request) db.profiles })
unfolding updated
put-IsValid db k request valid = (
  valid.0,
  valid.1,
  λ j.
      rw
        (count-update_where_same (profile_of j) (λ p. p.id == k) (updated request) db.profiles
          (λ a e. refl))
        (valid.2 j),
  valid.3,
)

module _ {R : Type 0} (s : Server Db R) (valid : IsValid s.db) where
  profiled :
      (user_id row_id : ℕ)
      → first (profile_of user_id) s.db.profiles ≡ none
      → IsValid (record s.db { profiles = s.db.profiles ++ empty_profile row_id user_id ∷ [] })
  unfolding empty_profile
  profiled user_id row_id new = (
    valid.0,
    valid.1,
    (λ k.
        count-append_fresh (λ p. p.user_id) s.db.profiles (empty_profile row_id user_id) k
          (count_zero_of_missing (profile_of user_id) s.db.profiles new) (valid.2 k)),
    valid.3,
  )

  pub get_profile-IsValid : (row_id k : ℕ) → IsValid (get_profile row_id k s).1.db
  unfolding get_profile get_or_create_profile found_or_new add_profile
  get_profile-IsValid row_id k = elim (Option-cases (first (has_id k) s.db.users)) [
    | inl e ↦ rw e valid
    | inr (user, e) ↦ elim (Option-cases (first (profile_of user.id) s.db.profiles)) [
      | inr (profile, p) ↦ rw (e, p) valid
      | inl new ↦ rw (e, new) (profiled user.id row_id new)
    ]
  ]

module _ {R : Type 0} where
  pub put_profile-IsValid :
      (s : Server Db R) (valid : IsValid s.db) (row_id : ℕ) (request : ProfileUpdate)
      (user : CurrentUser)
      → IsValid (put_profile row_id request user s).1.db
  unfolding put_profile update_profile get_or_create_profile found_or_new add_profile
  put_profile-IsValid s valid row_id request user = role_case user.role refl
    where
      user_case : user.role ≡ student → IsValid (put_profile row_id request user s).1.db
      user_case r = elim (Option-cases (first (has_id user.id) s.db.users)) [
        | inl e ↦ rw (r, e) valid
        | inr (found, e) ↦ elim (Option-cases (first (profile_of found.id) s.db.profiles)) [
          | inr (profile, p) ↦ rw (r, e, p) (put-IsValid s.db profile.id request valid)
          | inl new ↦
              rw (r, e, new)
                (put-IsValid
                  (record s.db { profiles = s.db.profiles ++ empty_profile row_id found.id ∷ [] })
                  (empty_profile row_id found.id).id request (profiled s valid found.id row_id new))
        ]
      ]

      role_case : (r : UserRole) → user.role ≡ r → IsValid (put_profile row_id request user s).1.db
      role_case coordinator r = rw r valid
      role_case student r = user_case r
