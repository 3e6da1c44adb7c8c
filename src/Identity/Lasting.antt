-- ===== src/Identity/Lasting.antt =====
-- A refresh token that has served is refused for good: `refresh` among later requests.
use campus_hr_b.Prelude.{
  ℕ, ◌≡◌, refl, ap, sym, ◌∙◌, inl, inr, Option, none, some, String, List, [], ◌∷◌, ◌++◌, true,
  str_eq, Bool-cases, Option-cases,
}
use campus_hr_b.Common.Enums.{CurrentUser, UserRole, student, coordinator, is_student}
use campus_hr_b.Common.Uuid.{to_text}
use campus_hr_b.Session.{Server, ok, Refused}
use campus_hr_b.Table.{first, update_where}
use campus_hr_b.Table.Rows.{first-update_where_found, first-update_where_missed, first-append_found}
use campus_hr_b.Identity.Model.{
  RefreshToken, Claims, Libraries, Settings, Response, Stamp, Db, RegisterRequest, LoginRequest,
  ProfileUpdate, has_id, has_email, profile_of, has_jti, is_token,
}
use campus_hr_b.Identity.Service.{
  new_token, read_token, register_user, add_user, add_profile_of, add_profile, empty_profile,
  get_or_create_profile, found_or_new, update_profile, extract_access_token, revoke_refresh_token,
  revoke_payload, revoke_found, revoke,
}
use campus_hr_b.Identity.Api.{
  register, login, refresh, logout, get_profile, put_profile, blacklist_extracted,
}
use campus_hr_b.Identity.Sessions.{login_cases}
use campus_hr_b.Identity.Refreshing.{revoked, rotated_db, refresh_cases}
use campus_hr_b.Identity.Rotation.{Steady, served_twice, served_revoked, clash}
use campus_hr_b.Identity.Signout.{revoke_refresh_token-Quiet}
use campus_hr_b.Identity.Revoking.{blacklist_extracted-ok}
use campus_hr_b.Identity.Requests.{
  Step, Runs, registers, signs_in, refreshes, signs_out, gets_profile, puts_profile, redis_changes,
  here, next,
}

-- the row that the name of a refresh token finds is revoked
abbrev Served : String → List RefreshToken → Type 0
Served name rows =
    (row : RefreshToken) × (first (has_jti name) rows ≡ some row) × (row.revoked ≡ true)

Served-append :
    (name : String) (rows : List RefreshToken) (row : RefreshToken)
    → Served name rows
    → Served name (rows ++ row ∷ [])
Served-append name rows row (old, e, r) = (old, first-append_found (has_jti name) rows row e, r)

Served-revoke :
    (name : String) (k : ℕ) (rows : List RefreshToken)
    → Served name rows
    → Served name (update_where (is_token k) revoked rows)
Served-revoke name k rows (old, e, r) = elim (Bool-cases (is_token k old)) [
  | inl hit ↦ (
    revoked old,
    first-update_where_found (has_jti name) (is_token k) revoked rows (λ a. refl) e hit,
    refl,
  )
  | inr miss ↦ (
    old,
    first-update_where_missed (has_jti name) (is_token k) revoked rows (λ a. refl) e miss,
    r,
  )
]

module _ {R : Type 0} (name : String) (s : Server Db R) (h : Served name s.db.refresh_tokens) where
  register-Served :
      (lib : Libraries R) (salt : ℕ) (row : Stamp) (profile_row : ℕ) (request : RegisterRequest)
      → Served name (register lib salt row profile_row request s).1.db.refresh_tokens
  unfolding register register_user add_user add_profile_of add_profile empty_profile
  register-Served lib salt row profile_row request =
      elim (Option-cases (first (has_email request.email) s.db.users)) [
        | inr (user, e) ↦ rw e h
        | inl new ↦ elim (Bool-cases (is_student request.role)) [
          | inl yes' ↦ rw (new, yes') h
          | inr no' ↦ rw (new, no') h
        ]
      ]

  login-Served :
      (lib : Libraries R) (settings : Settings) (now jti row_id : ℕ) (request : LoginRequest)
      → Served name (login lib settings now jti row_id request s).1.db.refresh_tokens
  login-Served lib settings now jti row_id request =
      elim (login_cases lib settings now jti row_id request s) [
        | inl refused ↦ rw refused.1 h
        | inr (user, _, _, _, done) ↦ rw done (
            Served-append name s.db.refresh_tokens
              (new_token settings now row_id user (to_text jti)) h)
      ]

  refresh-Served :
      (lib : Libraries R) (settings : Settings) (now jti row_id : ℕ) (cookie : Option String)
      → Served name (refresh lib settings now jti row_id cookie s).1.db.refresh_tokens
  refresh-Served lib settings now jti row_id cookie =
      elim (refresh_cases lib settings now jti row_id cookie s) [
        | inl refused ↦ rw refused.1 h
        | inr (_, _, _, row, user, _, _, _, _, _, _, _, done) ↦ rw done (
            Served-append name (update_where (is_token row.id) revoked s.db.refresh_tokens)
              (new_token settings now row_id user (to_text jti))
              (Served-revoke name row.id s.db.refresh_tokens h))
      ]

  revoke_found-Served :
      (lib : Libraries R) (settings : Settings) (now : ℕ) (found : Option RefreshToken) (r : R)
      → Served name
          (revoke_found lib settings now found
            (record { saved = s.db; work = s.db; world = r })).1.saved.refresh_tokens
  unfolding revoke_found revoke
  revoke_found-Served lib settings now none r = h
  revoke_found-Served lib settings now (some row) r = elim (Bool-cases row.revoked) [
    | inl old ↦ rw old h
    | inr new ↦ rw new (Served-revoke name row.id s.db.refresh_tokens h)
  ]

  revoke_payload-Served :
      (lib : Libraries R) (settings : Settings) (now : ℕ) (payload : Option Claims) (r : R)
      → Served name
          (revoke_payload lib settings now payload
            (record { saved = s.db; work = s.db; world = r })).1.saved.refresh_tokens
  unfolding revoke_payload
  revoke_payload-Served lib settings now none r = h
  revoke_payload-Served lib settings now (some payload) r = elim (Option-cases payload.jti) [
    | inl e ↦ rw e h
    | inr (jti, e) ↦ elim (Bool-cases (str_eq jti "")) [
      | inl blank ↦ rw (e, blank) h
      | inr named ↦
          rw (e, named)
            (revoke_found-Served lib settings now (first (has_jti jti) s.db.refresh_tokens) r)
    ]
  ]

  revoke_refresh_token-Served :
      (lib : Libraries R) (settings : Settings) (now : ℕ) (cookie : Option String) (r : R)
      → Served name
          (revoke_refresh_token lib settings now cookie
            (record { saved = s.db; work = s.db; world = r })).1.saved.refresh_tokens
  unfolding revoke_refresh_token
  revoke_refresh_token-Served lib settings now none r = h
  revoke_refresh_token-Served lib settings now (some token) r =
      elim (Bool-cases (str_eq token "")) [
        | inl blank ↦ rw blank h
        | inr full ↦
            rw full (revoke_payload-Served lib settings now (read_token lib settings now token) r)
      ]

  logout-Served :
      (lib : Libraries R) (settings : Settings) (now : ℕ) (a b c : Option String)
      → Served name (logout lib settings now a b c s).1.db.refresh_tokens
  unfolding logout
  logout-Served lib settings now a b c =
      let extracted = (extract_access_token c a tt).0 in
      let r = (blacklist_extracted lib settings now extracted s.world).1 in
      let listed = blacklist_extracted-ok lib settings now extracted s.world in
      let fine =
        (revoke_refresh_token-Quiet lib settings now b
          (record { saved = s.db; work = s.db; world = r })).0 in
      rw (listed, fine) (revoke_refresh_token-Served lib settings now b r)

  get_profile-Served : (row_id k : ℕ) → Served name (get_profile row_id k s).1.db.refresh_tokens
  unfolding get_profile get_or_create_profile found_or_new add_profile
  get_profile-Served row_id k = elim (Option-cases (first (has_id k) s.db.users)) [
    | inl e ↦ rw e h
    | inr (user, e) ↦ elim (Option-cases (first (profile_of user.id) s.db.profiles)) [
      | inr (profile, p) ↦ rw (e, p) h
      | inl new ↦ rw (e, new) h
    ]
  ]

module _ {R : Type 0} where
  put_profile-Served :
      (name : String) (s : Server Db R) (h : Served name s.db.refresh_tokens) (row_id : ℕ)
      (request : ProfileUpdate) (user : CurrentUser)
      → Served name (put_profile row_id request user s).1.db.refresh_tokens
  unfolding put_profile update_profile get_or_create_profile found_or_new add_profile
  put_profile-Served name s h row_id request user = role_case user.role refl
    where
      role_case :
          (r : UserRole)
          → user.role ≡ r
          → Served name (put_profile row_id request user s).1.db.refresh_tokens
      role_case coordinator r = rw r h
      role_case student r = elim (Option-cases (first (has_id user.id) s.db.users)) [
        | inl e ↦ rw (r, e) h
        | inr (found, e) ↦ elim (Option-cases (first (profile_of found.id) s.db.profiles)) [
          | inr (profile, p) ↦ rw (r, e, p) h
          | inl new ↦ rw (r, e, new) h
        ]
      ]

Step-Served :
    {R : Type 0} (name : String) {s t : Server Db R}
    → Served name s.db.refresh_tokens
    → Step s t
    → Served name t.db.refresh_tokens
Step-Served name {s} h (registers lib salt row p request f g) =
    register-Served name s h lib salt row p request
Step-Served name {s} h (signs_in lib settings now jti k request f) =
    login-Served name s h lib settings now jti k request
Step-Served name {s} h (refreshes lib settings now jti k cookie f) =
    refresh-Served name s h lib settings now jti k cookie
Step-Served name {s} h (signs_out lib settings now a b c) =
    logout-Served name s h lib settings now a b c
Step-Served name {s} h (gets_profile row_id k) = get_profile-Served name s h row_id k
Step-Served name {s} h (puts_profile row_id request user) =
    put_profile-Served name s h row_id request user
Step-Served name h (redis_changes r) = h

Runs-Served :
    {R : Type 0} (name : String) {s t : Server Db R}
    → Served name s.db.refresh_tokens
    → Runs s t
    → Served name t.db.refresh_tokens
Runs-Served name h here = h
Runs-Served name h (next steps step) = Step-Served name (Runs-Served name h steps) step

module _ {R : Type 0} (lib : Libraries R) (settings : Settings) (now jti row_id : ℕ)
    (cookie : Option String) (s u : Server Db R) (steady : Steady lib) (now' jti' row_id' : ℕ) where
  turned_away :
      (token : String) (payload : Claims) (name : String)
      → cookie ≡ some token
      → read_token lib settings now token ≡ some payload
      → payload.jti ≡ some name
      → Served name u.db.refresh_tokens
      → Refused (refresh lib settings now' jti' row_id' cookie u) u
  turned_away token payload name c read j (row, found, dead) =
      elim (refresh_cases lib settings now' jti' row_id' cookie u) [
        | inl refused ↦ refused
        | inr (token', payload', name', row', _, c', read', j', e', live, _, _, _) ↦ absurd (
            clash
              (served_twice lib settings now cookie steady now' u.db.refresh_tokens token token'
                payload payload' name name' row row' c c' read read' j j' found e' dead)
              live)
      ]

  -- A refresh token serves once: after a refresh that is answered with success, whatever requests
  -- of anybody are served after it, each later request with the same cookie is refused and changes
  -- nothing.
  pub refresh_once :
      (response : Response Unit) (t : Server Db R)
      → refresh lib settings now jti row_id cookie s ≡ (ok response, t)
      → Runs t u
      → Refused (refresh lib settings now' jti' row_id' cookie u) u
  refresh_once response t h later = elim (refresh_cases lib settings now jti row_id cookie s) [
    | inl refused ↦ cc refused.0.1
    | inr (token, payload, name, row, user, c, read, j, e, _, _, _, done) ↦
        let db : rotated_db lib settings now jti row_id cookie s row user ≡ t.db =
          ap (λ z. z.1.db) (sym done ∙ h) in
        let found : first (has_jti name) t.db.refresh_tokens ≡ some (revoked row) =
          ap (λ d. first (has_jti name) d.refresh_tokens) (sym db)
          ∙ served_revoked lib settings now jti row_id cookie s name row user e in
        turned_away token payload name c read j (Runs-Served name (revoked row, found, refl) later)
  ]
