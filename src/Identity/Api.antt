-- ===== src/Identity/Api.antt =====
-- services/identity-service/app/api/auth.py. A route has the cookies of the request and its
-- Authorization header as arguments. The options of the cookies that the settings fix are left out.
use campus_hr_b.Prelude.{ℕ, ◌*◌, String, Option, none, some, not}
use campus_hr_b.Common.Enums.{CurrentUser, UserRole, is_student}
use campus_hr_b.Session.{
  Exec, Result, ok, err, http_exception, attribute_error, pure, or_raise, raise_if, ◌>>=◌, ◌>>◌,
  query, outside, with_db,
}
use campus_hr_b.Table.{first}
use campus_hr_b.Identity.Model.{
  User, StudentProfile, RegisterRequest, LoginRequest, ProfileUpdate, Libraries, Settings, Stamp,
  Response, set_cookie, delete_cookie, Route, has_id,
}
use campus_hr_b.Identity.Service.{
  is_blank, register_user, authenticate, issue_tokens, refresh_session, blacklist_token,
  extract_access_token, validate_token, revoke_refresh_token, get_or_create_profile, update_profile,
}

unfoldable pub set_auth_cookies : {A : Type 0} → Settings → String × String → A → Response A
set_auth_cookies settings (access, refresh) body = record {
  body = body;
  access_token = set_cookie access none;
  refresh_token = set_cookie refresh (some (settings.refresh_token_expire_days * 24 * 60 * 60));
}

unfoldable pub clear_auth_cookies : Response Unit
clear_auth_cookies = record {
  body = tt;
  access_token = delete_cookie;
  refresh_token = delete_cookie;
}

module _ {R : Type 0} where
  unfoldable pub me : CurrentUser → Route R User
  me user = with_db do
    found ← query λ db. first (has_id user.id) db.users
    or_raise found (http_exception 404 "User not found")

  unfoldable pub get_profile : ℕ → ℕ → Route R StudentProfile
  get_profile row_id user_id = with_db do
    found ← query λ db. first (has_id user_id) db.users
    user ← or_raise found (http_exception 404 "User not found")
    get_or_create_profile row_id user

  -- a user who is gone is None, which has no `id`
  unfoldable pub put_profile : ℕ → ProfileUpdate → CurrentUser → Route R StudentProfile
  put_profile row_id request user = with_db do
    raise_if (not (is_student user.role)) (http_exception 403 "Only students have profiles")
    found ← query λ db. first (has_id user.id) db.users
    db_user ← or_raise found attribute_error
    update_profile row_id db_user request

module _ {R : Type 0} (lib : Libraries R) where
  unfoldable pub register : ℕ → Stamp → ℕ → RegisterRequest → Route R User
  register salt row profile_row request = with_db (register_user lib salt row profile_row request)

  module _ (settings : Settings) (now : ℕ) where
    unfoldable pub login : ℕ → ℕ → LoginRequest → Route R (Response User)
    unfolding set_auth_cookies
    login jti row_id request = with_db do
      user ← authenticate lib request.email request.password
      tokens ← issue_tokens lib settings now jti row_id user
      pure (set_auth_cookies settings tokens user)

    unfoldable pub refresh : ℕ → ℕ → Option String → Route R (Response Unit)
    unfolding set_auth_cookies
    refresh jti row_id cookie = with_db do
      raise_if (is_blank cookie) (http_exception 401 "Missing refresh token")
      refresh_token ← or_raise cookie (http_exception 401 "Missing refresh token")
      tokens ← refresh_session lib settings now jti row_id refresh_token
      pure (set_auth_cookies settings tokens tt)

    -- `try: blacklist_token(...)`, where a token was extracted
    unfoldable pub blacklist_extracted : Result String → Exec R Unit
    blacklist_extracted (err e) = pure tt
    blacklist_extracted (ok token) = blacklist_token lib settings now token

    unfoldable pub logout : Option String → Option String → Option String → Route R (Response Unit)
    unfolding clear_auth_cookies blacklist_extracted extract_access_token
    logout access_token refresh_token authorization = with_db do
      let extracted = extract_access_token authorization access_token tt
      outside (blacklist_extracted extracted.0)
      revoke_refresh_token lib settings now refresh_token
      pure clear_auth_cookies

    unfoldable pub validate : Option String → Option String → Exec R (ℕ × UserRole)
    validate authorization access_token = validate_token lib settings now authorization access_token
