-- ===== src/Identity/Signout.antt =====
-- `logout`: the access token that it was asked with is refused from then on.
use campus_hr_b.Prelude.{
  ℕ, ◌+◌, ◌*◌, ◌-◌, ◌/◌, ◌<◌, ◌≤◌, ◌≡◌, ◌≢◌, refl, ap, Option, none, some, String, arith, ◌==◌,
  true, false, Bool-cases, Option-cases, inl, inr, leb, str_eq,
}
use mathlib.Core.Path.{subst}
use Prim.Native.String.{◌++◌ as str_append}
use campus_hr_b.Common.Bearer.{bearer}
use campus_hr_b.Session.{Server, Session, Result, ok, err, http_exception}
use campus_hr_b.Table.{first}
use campus_hr_b.Identity.Model.{RefreshToken, Claims, Libraries, Settings, Db, second, has_jti}
use campus_hr_b.Identity.Service.{
  blacklist_token, extract_access_token, validate_token, is_token_blacklisted, revoke_refresh_token,
  revoke_payload, revoke_found, revoke, read_token, time_to_live,
}
use campus_hr_b.Identity.Api.{logout, blacklist_extracted, clear_auth_cookies, validate}

-- Redis after further calls: other keys are set, and the key itself only to live past a time.
pub data Kept {R : Type 0} (lib : Libraries R) (key : String) (later : ℕ) (r : R) : R → Type 0 where
  kept : Kept lib key later r r
  sets :
      {r' : R}
      → Kept lib key later r r'
      → (at ttl : ℕ) (key' value : String) → (key' ≡ key → later < at + ttl * second)
      → Kept lib key later r (lib.setex at key' ttl value r')

-- What the services rely on in Redis: a key that was set is there for its time to live, whatever is
-- set after it, unless that is the key itself with an earlier end.
abbrev pub Remembers : {R : Type 0} → Libraries R → Type 0
Remembers {R} lib =
    (at later ttl : ℕ) (key value : String) (r r' : R)
    → later < at + ttl * second
    → Kept lib key later (lib.setex at key ttl value r) r'
    → lib.exists_key later key r' ≡ true

-- the entry lives until less than a second before the token expires
lives :
    (exp now later : ℕ)
    → later + second ≤ exp * second
    → later < now + time_to_live exp now * second
lives exp now later h = elim (Bool-cases (leb ((exp * second - now) / second) 1)) [
  | inl short ↦ rw short (ground arith)
  | inr long ↦ rw long (ground arith)
]

module _ {R : Type 0} (lib : Libraries R) (settings : Settings) (now : ℕ) where
  blacklisted :
      (token : String) (claims : Claims) (exp : ℕ) (r : R)
      → read_token lib settings now token ≡ some claims
      → claims.exp ≡ some exp
      → exp ≢ 0
      → blacklist_token lib settings now token r
        ≡ (ok tt, lib.setex now (str_append "blacklist:" token) (time_to_live exp now) "1" r)
  unfolding blacklist_token
  blacklisted token claims exp r read e live =
      let not_zero : (exp == 0) ≡ false = ground arith in rw (read, e, not_zero) refl

  abbrev pub Quiet : Result (Unit {0}) × Session Db R → Session Db R → Type 0
  Quiet (r, t) s = (r ≡ ok (tt {0})) × (t.world ≡ s.world)

  revoke_found-Quiet :
      (found : Option RefreshToken) (s : Session Db R)
      → Quiet (revoke_found lib settings now found s) s
  unfolding revoke_found revoke
  revoke_found-Quiet none s = (refl, refl)
  revoke_found-Quiet (some row) s = elim (Bool-cases row.revoked) [
    | inl old ↦ rw old (refl, refl)
    | inr new ↦ rw new (refl, refl)
  ]

  revoke_payload-Quiet :
      (payload : Option Claims) (s : Session Db R)
      → Quiet (revoke_payload lib settings now payload s) s
  unfolding revoke_payload
  revoke_payload-Quiet none s = (refl, refl)
  revoke_payload-Quiet (some payload) s = elim (Option-cases payload.jti) [
    | inl e ↦ rw e (refl, refl)
    | inr (jti, e) ↦ elim (Bool-cases (str_eq jti "")) [
      | inl blank ↦ rw (e, blank) (refl, refl)
      | inr named ↦ rw (e, named) (revoke_found-Quiet (first (has_jti jti) s.work.refresh_tokens) s)
    ]
  ]

  -- revoking raises nothing and leaves Redis alone
  pub revoke_refresh_token-Quiet :
      (cookie : Option String) (s : Session Db R)
      → Quiet (revoke_refresh_token lib settings now cookie s) s
  unfolding revoke_refresh_token
  revoke_refresh_token-Quiet none s = (refl, refl)
  revoke_refresh_token-Quiet (some token) s = elim (Bool-cases (str_eq token "")) [
    | inl blank ↦ rw blank (refl, refl)
    | inr full ↦ rw full (revoke_payload-Quiet (read_token lib settings now token) s)
  ]

-- the token that a request carries does not depend on what else is there
extract_anywhere :
    (R : Type 0) (authorization cookie : Option String) (token : String) (r : R)
    → extract_access_token authorization cookie tt ≡ (ok token, tt)
    → extract_access_token authorization cookie r ≡ (ok token, r)
unfolding extract_access_token bearer
extract_anywhere R authorization cookie token r h = elim (Option-cases (bearer authorization)) [
  | inr (sent, e) ↦ rw e (answer sent (ap (λ z. z.0) (rw e at h)))
  | inl e ↦ rw e (by_cookie cookie (rw e at h))
]
  where
    answer :
        (sent : String)
        → ok sent ≡ ok token
        → ◌≡◌ {A = Result String × R} (ok sent, r) (ok token, r)
    answer sent q = ap (λ x. (x, r)) q

    by_cookie :
        (c : Option String)
        → extract_access_token none c tt ≡ (ok token, tt)
        → extract_access_token none c r ≡ (ok token, r)
    by_cookie none q = cc q
    by_cookie (some c) q = elim (Bool-cases (str_eq c "")) [
      | inl blank ↦ cc (rw blank at q)
      | inr full ↦ rw full (answer c (ap (λ z. z.0) (rw full at q)))
    ]

module _ {R : Type 0} (lib : Libraries R) (settings : Settings) (now : ℕ) (token : String)
    (access_token refresh_token authorization : Option String) (s : Server Db R)
    (sent : extract_access_token authorization access_token tt ≡ (ok token, tt)) where
  logout_world :
      (r : R)
      → blacklist_token lib settings now token s.world ≡ (ok tt, r)
      → ((logout lib settings now access_token refresh_token authorization s).0
          ≡ ok clear_auth_cookies)
        × ((logout lib settings now access_token refresh_token authorization s).1.world ≡ r)
  unfolding logout blacklist_extracted
  logout_world r listed =
      let session : Session Db R = record { saved = s.db; work = s.db; world = r } in
      let (fine, world) = revoke_refresh_token-Quiet lib settings now refresh_token session in
      rw (sent, listed, fine) (refl, world)

  -- A sign-out with an access token, by the Authorization header or else by the cookie, is answered
  -- with success. From then until a second before the token expires `validate` refuses every
  -- request that sends that token, by header or by cookie, whatever other keys are set in Redis
  -- meanwhile.
  pub logout_ends :
      (remembers : Remembers lib) (claims : Claims) (exp later : ℕ)
      (access_token' authorization' : Option String) (r : R)
      → read_token lib settings now token ≡ some claims
      → claims.exp ≡ some exp
      → exp ≢ 0
      → later + second ≤ exp * second
      → Kept lib
          (str_append "blacklist:" token)
          later
          (logout lib settings now access_token refresh_token authorization s).1.world
          r
      → extract_access_token authorization' access_token' tt ≡ (ok token, tt)
      → ((logout lib settings now access_token refresh_token authorization s).0
          ≡ ok clear_auth_cookies)
        × (validate lib settings later authorization' access_token' r
            ≡ (err (http_exception 401 "Token revoked"), r))
  unfolding validate validate_token is_token_blacklisted
  logout_ends remembers claims exp later access_token' authorization' r read e live soon after
        again =
      let key = str_append "blacklist:" token in
      let ttl = time_to_live exp now in
      let (fine, world) =
        logout_world (lib.setex now key ttl "1" s.world)
          (blacklisted lib settings now token claims exp s.world read e live) in
      let there : lib.exists_key later key r ≡ true =
        remembers now later ttl key "1" s.world r (lives exp now later soon)
          (subst (λ w. Kept lib key later w r) world after) in
      (fine, rw (extract_anywhere R authorization' access_token' token r again, there) refl)
