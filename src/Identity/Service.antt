-- ===== src/Identity/Service.antt =====
-- services/identity-service/app/services/auth_service.py. One reading of the clock serves a
-- request. `db.refresh` gives the row that the session has just committed.
use Prim.Native.String.{◌++◌ as str_append}
use campus_hr_b.Prelude.{
  ℕ, ◌+◌, ◌*◌, ◌-◌, ◌/◌, String, Bool, true, false, Option, none, some, [], ◌∷◌, ◌++◌, not, ◌||◌,
  leb, ◌==◌, str_eq, if◌then◌else◌, is_some,
}
use campus_hr_b.Common.Enums.{UserRole, role_value, is_student, role_of_text}
use campus_hr_b.Common.Uuid.{to_text, of_text}
use campus_hr_b.Common.Bearer.{bearer}
use campus_hr_b.Session.{
  Exec, ok, http_exception, key_error, value_error, data_error, pure, raise, or_raise, raise_if,
  ◌>>=◌, ◌>>◌, query, modify, commit,
}
use campus_hr_b.Table.{first, update_where}
use campus_hr_b.Identity.Model.{
  User, StudentProfile, RefreshToken, RegisterRequest, ProfileUpdate, Change, unset, set_to, Claims,
  Libraries, Settings, Stamp, Handler, second, has_id, has_email, profile_of, has_jti, is_token,
}

-- `if not text`
abbrev pub is_blank : Option String → Bool
is_blank none = true
is_blank (some s) = str_eq s ""

-- `payload.get("type") == t`
abbrev pub is_type : String → Option String → Bool
is_type t none = false
is_type t (some s) = str_eq s t

unfoldable pub empty_profile : ℕ → ℕ → StudentProfile
empty_profile row_id user_id = record {
  id = row_id;
  user_id = user_id;
  name = none;
  cgpa = none;
  branch = none;
  year = none;
  phone = none;
  skills = some [];
}

unfoldable pub access_claims : Settings → ℕ → User → Claims
access_claims settings now user = record {
  sub = some (to_text user.id);
  role = some (role_value user.role);
  token_type = some "access";
  jti = none;
  exp = some (now + settings.access_token_expire_minutes * 60 * second);
}

unfoldable pub refresh_claims : Settings → ℕ → User → String → Claims
refresh_claims settings now user token_id = record {
  sub = some (to_text user.id);
  role = some (role_value user.role);
  token_type = some "refresh";
  jti = some token_id;
  exp = some (now + settings.refresh_token_expire_days * 86400 * second);
}

unfoldable pub new_token : Settings → ℕ → ℕ → User → String → RefreshToken
new_token settings now row_id user token_id = record {
  id = row_id;
  user_id = user.id;
  token_jti = token_id;
  expires_at = now + settings.refresh_token_expire_days * 86400 * second;
  revoked = false;
}

-- `int(exp - now)` of a time in seconds, and at least 1
abbrev pub time_to_live : ℕ → ℕ → ℕ
time_to_live exp now = let left = (exp * second - now) / second in if leb left 1 then 1 else left

abbrev pub changed : {A : Type 0} → Change A → A → A
changed unset old = old
changed (set_to new) old = new

-- the loop over the fields that the request sets
unfoldable pub updated : ProfileUpdate → StudentProfile → StudentProfile
updated request profile = record profile {
  name = changed request.name profile.name;
  cgpa = changed request.cgpa profile.cgpa;
  branch = changed request.branch profile.branch;
  year = changed request.year profile.year;
  phone = changed request.phone profile.phone;
  skills = changed request.skills profile.skills;
}

unfoldable pub extract_access_token : {S : Type 0} → Option String → Option String → Exec S String
extract_access_token authorization cookie_token = given (bearer authorization) cookie_token
  where
    given : {S : Type 0} → Option String → Option String → Exec S String
    given (some token) cookie = pure token
    given none none = raise (http_exception 401 "Missing access token")
    given none (some cookie) =
        if str_eq cookie "" then raise (http_exception 401 "Missing access token") else pure cookie

module _ {R : Type 0} where
  unfoldable pub add_user : User → Handler R Unit
  add_user user = modify λ db. record db { users = db.users ++ user ∷ [] }

  unfoldable pub add_profile : StudentProfile → Handler R Unit
  add_profile profile = modify λ db. record db { profiles = db.profiles ++ profile ∷ [] }

  -- `if data.role == UserRole.STUDENT: db.add(...)`
  unfoldable pub add_profile_of : UserRole → StudentProfile → Handler R Unit
  unfolding add_profile
  add_profile_of role profile = if is_student role then add_profile profile else pure tt

  unfoldable pub add_token : RefreshToken → Handler R Unit
  add_token row = modify λ db. record db { refresh_tokens = db.refresh_tokens ++ row ∷ [] }

  -- `token_record.revoked = True`
  unfoldable pub revoke : ℕ → Handler R Unit
  revoke k = modify λ db. record db {
    refresh_tokens =
        update_where (is_token k) (λ row. record row { revoked = true }) db.refresh_tokens;
  }

  unfoldable pub user_of : String → Handler R User
  user_of sub = do
    key ← or_raise (of_text sub) data_error
    found ← query λ db. first (has_id key) db.users
    or_raise found (http_exception 401 "User not found")

  -- the profile that was found, or a new one
  unfoldable pub found_or_new : ℕ → ℕ → Option StudentProfile → Handler R StudentProfile
  unfolding add_profile empty_profile
  found_or_new row_id user_id (some profile) = pure profile
  found_or_new row_id user_id none = do
    add_profile (empty_profile row_id user_id)
    commit
    pure (empty_profile row_id user_id)

  unfoldable pub get_or_create_profile : ℕ → User → Handler R StudentProfile
  unfolding found_or_new
  get_or_create_profile row_id user = do
    found ← query λ db. first (profile_of user.id) db.profiles
    found_or_new row_id user.id found

  unfoldable pub update_profile : ℕ → User → ProfileUpdate → Handler R StudentProfile
  unfolding get_or_create_profile
  update_profile row_id user request = do
    profile ← get_or_create_profile row_id user
    modify λ db. record db {
      profiles = update_where (λ p. p.id == profile.id) (updated request) db.profiles;
    }
    commit
    pure (updated request profile)

module _ {R : Type 0} (lib : Libraries R) where
  -- `user` and `profile_row` are the keys of the rows, and `salt` is what the hash draws
  unfoldable pub register_user : ℕ → Stamp → ℕ → RegisterRequest → Handler R User
  unfolding add_user add_profile_of
  register_user salt row profile_row request = do
    existing ← query λ db. first (has_email request.email) db.users
    raise_if (is_some existing) (http_exception 400 "Email already registered")
    let user : User = record {
      id = row.id;
      email = request.email;
      password_hash = lib.hash salt request.password;
      role = request.role;
      is_active = true;
      created_at = row.now;
    }
    add_user user
    add_profile_of request.role (empty_profile profile_row user.id)
    commit
    pure user

  unfoldable pub authenticate : String → String → Handler R User
  authenticate email password = do
    found ← query λ db. first (has_email email) db.users
    user ← or_raise found (http_exception 401 "Invalid credentials")
    raise_if (not (lib.verify password user.password_hash))
        (http_exception 401 "Invalid credentials")
    raise_if (not user.is_active) (http_exception 403 "Account disabled")
    pure user

  module _ (settings : Settings) (now : ℕ) where
    abbrev pub signed : Claims → String
    signed claims = lib.encode claims settings.jwt_secret_key settings.jwt_algorithm

    abbrev pub read_token : String → Option Claims
    read_token token = lib.decode now token settings.jwt_secret_key settings.jwt_algorithm

    -- `jti` is the uuid4 that names the refresh token, and `row_id` the key of its row
    unfoldable pub issue_tokens : ℕ → ℕ → User → Handler R (String × String)
    unfolding add_token
    issue_tokens jti row_id user = do
      add_token (new_token settings now row_id user (to_text jti))
      commit
      pure (
        signed (access_claims settings now user),
        signed (refresh_claims settings now user (to_text jti)),
      )

    unfoldable pub refresh_session : ℕ → ℕ → String → Handler R (String × String)
    unfolding user_of revoke issue_tokens
    refresh_session jti row_id refresh_token = do
      payload ← or_raise (read_token refresh_token) (http_exception 401 "Invalid refresh token")
      raise_if (not (is_type "refresh" payload.token_type))
          (http_exception 401 "Invalid token type")
      raise_if (is_blank payload.jti) (http_exception 401 "Invalid refresh token")
      token_jti ← or_raise payload.jti (http_exception 401 "Invalid refresh token")
      found ← query λ db. first (has_jti token_jti) db.refresh_tokens
      token_record ← or_raise found (http_exception 401 "Refresh token expired or revoked")
      raise_if (token_record.revoked || leb token_record.expires_at now)
          (http_exception 401 "Refresh token expired or revoked")
      sub ← or_raise payload.sub (key_error "sub")
      user ← user_of sub
      revoke token_record.id
      commit
      issue_tokens jti row_id user

    unfoldable pub blacklist_token : String → Exec R Unit
    blacklist_token token = of_payload (read_token token)
      where
        of_exp : Option ℕ → Exec R Unit
        of_exp none r = (ok tt, r)
        of_exp (some exp) r =
            if exp == 0
            then (ok tt, r)
            else (ok tt, lib.setex now (str_append "blacklist:" token) (time_to_live exp now) "1" r)

        of_payload : Option Claims → Exec R Unit
        of_payload none r = (ok tt, r)
        of_payload (some payload) r = of_exp payload.exp r

    unfoldable pub is_token_blacklisted : String → Exec R Bool
    is_token_blacklisted token r = (ok (lib.exists_key now (str_append "blacklist:" token) r), r)

    unfoldable pub validate_token : Option String → Option String → Exec R (ℕ × UserRole)
    unfolding extract_access_token is_token_blacklisted
    validate_token authorization cookie_token = do
      token ← extract_access_token authorization cookie_token
      revoked ← is_token_blacklisted token
      raise_if revoked (http_exception 401 "Token revoked")
      payload ← or_raise (read_token token) (http_exception 401 "Invalid token")
      raise_if (not (is_type "access" payload.token_type)) (http_exception 401 "Invalid token type")
      sub ← or_raise payload.sub (key_error "sub")
      user_id ← or_raise (of_text sub) (value_error "badly formed hexadecimal UUID string")
      role ← or_raise payload.role (key_error "role")
      user_role ← or_raise (role_of_text role) (value_error "not a valid UserRole")
      pure (user_id, user_role)

    -- `if token_record and not token_record.revoked: ...`
    unfoldable pub revoke_found : Option RefreshToken → Handler R Unit
    unfolding revoke
    revoke_found none = pure tt
    revoke_found (some row) = if row.revoked then pure tt else (do revoke row.id; commit)

    unfoldable pub revoke_payload : Option Claims → Handler R Unit
    unfolding revoke_found
    revoke_payload none = pure tt
    revoke_payload (some payload) = by_jti payload.jti
      where
        by_jti : Option String → Handler R Unit
        by_jti none = pure tt
        by_jti (some jti) =
            if str_eq jti ""
            then pure tt
            else (do found ← query λ db. first (has_jti jti) db.refresh_tokens; revoke_found found)

    unfoldable pub revoke_refresh_token : Option String → Handler R Unit
    unfolding revoke_payload
    revoke_refresh_token none = pure tt
    revoke_refresh_token (some refresh_token) =
        if str_eq refresh_token "" then pure tt else revoke_payload (read_token refresh_token)
