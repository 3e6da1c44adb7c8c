-- ===== src/Identity/Sessions.antt =====
-- Signing in and out: `login`, `refresh` and `logout`, and what `validate` then answers.
use campus_hr_b.Prelude.{
  ℕ, ◌+◌, ◌*◌, ◌/◌, ◌^◌, ◌<◌, ◌≡◌, refl, ap, sym, ◌∙◌, ◌⊎◌, inl, inr, none, some, String, [], ◌∷◌,
  ◌++◌, true, false, Bool-cases, Option-cases, str_eq,
}
use Prim.Native.String.{◌++◌ as str_append}
use campus_hr_b.Common.Enums.{UserRole, student, coordinator, role_value, role_of_text}
use campus_hr_b.Common.Uuid.{to_text}
use campus_hr_b.Common.Uuid.RoundTrip.{of_text-to_text}
use campus_hr_b.Common.Bearer.{bearer}
use campus_hr_b.Session.{Server, Result, ok, http_exception, Refused}
use campus_hr_b.Table.{first}
use campus_hr_b.Identity.Model.{
  User, Claims, Libraries, Settings, LoginRequest, Response, set_cookie, Db, second, has_email,
}
use campus_hr_b.Identity.Service.{
  authenticate, issue_tokens, add_token, new_token, access_claims, refresh_claims, signed,
  validate_token, extract_access_token, is_token_blacklisted, read_token,
}
use campus_hr_b.Identity.Api.{login, set_auth_cookies, validate}

-- What the services rely on in python-jose, of the token with these claims: it is not empty, and
-- before it expires the same key reads its claims back, the time in seconds.
abbrev pub Verifies : {R : Type 0} → Libraries R → Settings → Claims → Type 0
Verifies lib settings claims =
    (exp now : ℕ)
    → claims.exp ≡ some exp
    → now < exp
    → (str_eq (signed lib settings now claims) "" ≡ false)
      × (read_token lib settings now (signed lib settings now claims)
          ≡ some (record claims { exp = some (exp / second) }))

pub role_of_text-role_value : (role : UserRole) → role_of_text (role_value role) ≡ some role
unfolding role_of_text
role_of_text-role_value student = refl
role_of_text-role_value coordinator = refl

module _ {R : Type 0} (lib : Libraries R) (settings : Settings) (now jti row_id : ℕ)
    (request : LoginRequest) (s : Server Db R) where
  abbrev pub login_answer : Result (Response User) × Server Db R
  login_answer = login lib settings now jti row_id request s

  abbrev pub sign_in_response : User → Response User
  sign_in_response user = record {
    body = user;
    access_token = set_cookie (signed lib settings now (access_claims settings now user)) none;
    refresh_token =
        set_cookie (signed lib settings now (refresh_claims settings now user (to_text jti)))
          (some (settings.refresh_token_expire_days * 24 * 60 * 60));
  }

  abbrev pub sign_in_state : User → Server Db R
  sign_in_state user = record s {
    db = record s.db {
      refresh_tokens = s.db.refresh_tokens ++ new_token settings now row_id user (to_text jti) ∷ [];
    };
  }

  abbrev pub signs_in : User → Result (Response User) × Server Db R
  signs_in user = (ok (sign_in_response user), sign_in_state user)

  pub login_accepts :
      (user : User)
      → first (has_email request.email) s.db.users ≡ some user
      → lib.verify request.password user.password_hash ≡ true
      → user.is_active ≡ true
      → login_answer ≡ signs_in user
  unfolding login authenticate issue_tokens add_token set_auth_cookies
  login_accepts user e right on = rw (e, right, on) refl

  abbrev pub SignsIn : Type 0
  SignsIn =
      (user : User) × (first (has_email request.email) s.db.users ≡ some user)
      × (lib.verify request.password user.password_hash ≡ true)
      × (user.is_active ≡ true)
      × (login_answer ≡ signs_in user)

  -- The route refuses and changes nothing, or an active user with the right password signs in.
  pub login_cases : Refused login_answer s ⊎ SignsIn
  unfolding login authenticate issue_tokens add_token set_auth_cookies
  login_cases = elim (Option-cases (first (has_email request.email) s.db.users)) [
    | inl e ↦ inl (rw e ((http_exception 401 "Invalid credentials", refl), refl))
    | inr (user, e) ↦ elim (Bool-cases (lib.verify request.password user.password_hash)) [
      | inr wrong ↦ inl (rw (e, wrong) ((http_exception 401 "Invalid credentials", refl), refl))
      | inl right ↦ elim (Bool-cases user.is_active) [
        | inr off ↦ inl (rw (e, right, off) ((http_exception 403 "Account disabled", refl), refl))
        | inl on ↦ inr (user, e, right, on, login_accepts user e right on)
      ]
    ]
  ]

-- a token of this user that is alive and not revoked
token_validates :
    {R : Type 0} (lib : Libraries R) (settings : Settings) (now later : ℕ) (user : User) (r : R)
    → Verifies lib settings (access_claims settings now user)
    → user.id < 2 ^ 128
    → later < now + settings.access_token_expire_minutes * 60 * second
    → lib.exists_key later
        (str_append "blacklist:" (signed lib settings now (access_claims settings now user)))
        r
      ≡ false
    → validate lib settings later none
        (some (signed lib settings now (access_claims settings now user)))
        r
      ≡ (ok (user.id, user.role), r)
unfolding validate validate_token extract_access_token is_token_blacklisted bearer access_claims
token_validates lib settings now later user r law small alive clean =
    let claims = access_claims settings now user in
    let (full, read) =
      law (now + settings.access_token_expire_minutes * 60 * second) later refl alive in
    rw (full, clean, read, of_text-to_text user.id small, role_of_text-role_value user.role) refl

module _ {R : Type 0} (lib : Libraries R) (settings : Settings) (now jti row_id : ℕ)
    (request : LoginRequest) (s : Server Db R) where
  -- A sign-in that is answered with success is of an active user with that email and the right
  -- password, and adds one refresh token that is not revoked. Until the access token expires, and
  -- as long as it is not on the blacklist, `validate` answers that user's key and role to it.
  pub login_validates :
      (response : Response User) (t : Server Db R) (token : String) (later : ℕ) (r : R)
      → Verifies lib settings (access_claims settings now response.body)
      → login lib settings now jti row_id request s ≡ (ok response, t)
      → response.access_token ≡ set_cookie token none
      → response.body.id < 2 ^ 128
      → later < now + settings.access_token_expire_minutes * 60 * second
      → lib.exists_key later (str_append "blacklist:" token) r ≡ false
      → (first (has_email request.email) s.db.users ≡ some response.body)
        × (lib.verify request.password response.body.password_hash ≡ true)
        × (response.body.is_active ≡ true)
        × (t.db.users ≡ s.db.users)
        × (t.db.refresh_tokens
            ≡ s.db.refresh_tokens ++ new_token settings now row_id response.body (to_text jti) ∷ [])
        × (validate lib settings later none (some token) r
            ≡ (ok (response.body.id, response.body.role), r))
  login_validates response t token later r law h cookie small alive clean =
      elim (login_cases lib settings now jti row_id request s) [
        | inl refused ↦ cc refused.0.1
        | inr (user, e, right, on, done) ↦
            let made : signs_in lib settings now jti row_id request s user ≡ (ok response, t) =
              sym done ∙ h in
            signed_in user made e right on
      ]
    where
      token_of : {a b : String} → set_cookie a none ≡ set_cookie b none → a ≡ b
      token_of q = cc q

      value_of : {a b : Response User} → ok a ≡ ok b → a ≡ b
      value_of q = cc q

      signed_in :
          (user : User)
          → signs_in lib settings now jti row_id request s user ≡ (ok response, t)
          → first (has_email request.email) s.db.users ≡ some user
          → lib.verify request.password user.password_hash ≡ true
          → user.is_active ≡ true
          → (first (has_email request.email) s.db.users ≡ some response.body)
            × (lib.verify request.password response.body.password_hash ≡ true)
            × (response.body.is_active ≡ true)
            × (t.db.users ≡ s.db.users)
            × (t.db.refresh_tokens
                ≡ s.db.refresh_tokens
                  ++ new_token settings now row_id response.body (to_text jti) ∷ [])
            × (validate lib settings later none (some token) r
                ≡ (ok (response.body.id, response.body.role), r))
      signed_in user made e right on =
          let same = value_of (ap (λ z. z.0) made) in
          let body : user ≡ response.body = ap (λ z. z.body) same in
          let db = ap (λ z. z.1.db) made in
          let tok : signed lib settings now (access_claims settings now user) ≡ token =
            token_of (ap (λ z. z.access_token) same ∙ cookie) in
          (
            e ∙ ap some body,
            ap (λ u. lib.verify request.password u.password_hash) (sym body) ∙ right,
            ap (λ u. u.is_active) (sym body) ∙ on,
            ap (λ d. d.users) (sym db),
            ap (λ d. d.refresh_tokens) (sym db)
                ∙ ap
                    (λ u. s.db.refresh_tokens ++ new_token settings now row_id u (to_text jti) ∷ [])
                    body,
            rw (sym tok, sym body)
                (token_validates lib settings now later user r (rw body law) (rw body small) alive
                  (rw tok clean)),
          )
