-- ===== src/Identity/Refreshing.antt =====
-- `refresh`: all that it can answer, and what it then writes.
use campus_hr_b.Prelude.{
  ℕ, ◌*◌, ◌<◌, ◌≡◌, refl, ap, ◌⊎◌, inl, inr, Option, none, some, String, [], ◌∷◌, ◌++◌, arith, true,
  false, Bool-cases, Option-cases, leb, ◌||◌, str_eq,
}
use campus_hr_b.Common.Uuid.{to_text, of_text}
use campus_hr_b.Session.{
  Server, Session, Result, ok, err, Error, http_exception, key_error, data_error, Refused,
}
use campus_hr_b.Table.{first, update_where}
use campus_hr_b.Identity.Model.{
  User, RefreshToken, Claims, Libraries, Settings, Response, set_cookie, Db, has_id, has_jti,
  is_token,
}
use campus_hr_b.Identity.Service.{
  refresh_session, issue_tokens, add_token, revoke, user_of, new_token, access_claims,
  refresh_claims, signed, read_token, is_type,
}
use campus_hr_b.Identity.Api.{refresh, set_auth_cookies}

abbrev pub revoked : RefreshToken → RefreshToken
revoked row = record row { revoked = true }

refusal_by : {A S : Type 0} {r : Result A × S} {x : Error} {s : S} → r ≡ (err x, s) → Refused r s
refusal_by {A} {S} {r} {x} {s} h = ((x, ap (λ p. p.0) h), ap (λ p. p.1) h)

module _ {R : Type 0} (lib : Libraries R) (settings : Settings) (now jti row_id : ℕ)
    (cookie : Option String) (s : Server Db R) where
  abbrev pub refresh_answer : Result (Response Unit) × Server Db R
  refresh_answer = refresh lib settings now jti row_id cookie s

  abbrev pub rotated_db : RefreshToken → User → Db
  rotated_db row user = record s.db {
    refresh_tokens =
        update_where (is_token row.id) revoked s.db.refresh_tokens
        ++ new_token settings now row_id user (to_text jti) ∷ [];
  }

  abbrev pub rotates : RefreshToken → User → Result (Response Unit) × Server Db R
  rotates row user = (
    ok (record {
      body = tt;
      access_token = set_cookie (signed lib settings now (access_claims settings now user)) none;
      refresh_token =
          set_cookie (signed lib settings now (refresh_claims settings now user (to_text jti)))
            (some (settings.refresh_token_expire_days * 24 * 60 * 60));
    }),
    record s { db = rotated_db row user },
  )

  abbrev pub Rotates : Type 0
  Rotates =
      (token : String) × (payload : Claims) × (name : String) × (row : RefreshToken) × (user : User)
      × (cookie ≡ some token)
      × (read_token lib settings now token ≡ some payload)
      × (payload.jti ≡ some name)
      × (first (has_jti name) s.db.refresh_tokens ≡ some row)
      × (row.revoked ≡ false)
      × (now < row.expires_at)
      × ((key : ℕ) × (first (has_id key) s.db.users ≡ some user))
      × (refresh_answer ≡ rotates row user)

  abbrev session : Session Db R
  session = record { saved = s.db; work = s.db; world = s.world }

  user_of_cases :
      (sub : String)
      → ((key : ℕ) × (user : User) × (first (has_id key) s.db.users ≡ some user)
          × (user_of sub session ≡ (ok user, session)))
        ⊎ ((x : Error) × (user_of sub session ≡ (err x, session)))
  unfolding user_of
  user_of_cases sub = elim (Option-cases (of_text sub)) [
    | inl none' ↦ inr (data_error, rw none')
    | inr (key, k) ↦ elim (Option-cases (first (has_id key) s.db.users)) [
      | inl gone ↦ inr (http_exception 401 "User not found", rw (k, gone))
      | inr (user, e) ↦ inl (key, user, e, rw (k, e))
    ]
  ]

  row_case :
      (token : String) (payload : Claims) (name : String) (row : RefreshToken)
      → cookie ≡ some token
      → str_eq token "" ≡ false
      → read_token lib settings now token ≡ some payload
      → is_type "refresh" payload.token_type ≡ true
      → payload.jti ≡ some name
      → str_eq name "" ≡ false
      → first (has_jti name) s.db.refresh_tokens ≡ some row
      → Refused refresh_answer s ⊎ Rotates
  unfolding refresh refresh_session revoke issue_tokens add_token set_auth_cookies
  row_case token payload name row c full read typed j named e =
      elim (Bool-cases (row.revoked || leb row.expires_at now)) [
        | inl dead ↦ inl (
            rw (c, full, read, typed, j, named, e, dead)
              ((http_exception 401 "Refresh token expired or revoked", refl), refl))
        | inr live ↦ elim (Option-cases payload.sub) [
          | inl no_sub ↦
              inl (
                rw (c, full, read, typed, j, named, e, live, no_sub)
                  ((key_error "sub", refl), refl))
          | inr (sub, u) ↦ elim (user_of_cases sub) [
            | inr (x, bad) ↦
                inl (rw (c, full, read, typed, j, named, e, live, u, bad) ((x, refl), refl))
            | inl (key, user, k, good) ↦ inr (
              token,
              payload,
              name,
              row,
              user,
              c,
              read,
              j,
              e,
              ground (arith, live),
              ground (arith, live),
              (key, k),
              rw (c, full, read, typed, j, named, e, live, u, good) refl,
            )
          ]
        ]
      ]

  named_case :
      (token : String) (payload : Claims) (name : String)
      → cookie ≡ some token
      → str_eq token "" ≡ false
      → read_token lib settings now token ≡ some payload
      → is_type "refresh" payload.token_type ≡ true
      → payload.jti ≡ some name
      → Refused refresh_answer s ⊎ Rotates
  unfolding refresh refresh_session
  named_case token payload name c full read typed j = elim (Bool-cases (str_eq name "")) [
    | inl blank ↦ inl (
        rw (c, full, read, typed, j, blank)
          ((http_exception 401 "Invalid refresh token", refl), refl))
    | inr named ↦ elim (Option-cases (first (has_jti name) s.db.refresh_tokens)) [
      | inl gone ↦ inl (
          rw (c, full, read, typed, j, named, gone)
            ((http_exception 401 "Refresh token expired or revoked", refl), refl))
      | inr (row, e) ↦ row_case token payload name row c full read typed j named e
    ]
  ]

  read_case :
      (token : String) (payload : Claims)
      → cookie ≡ some token
      → str_eq token "" ≡ false
      → read_token lib settings now token ≡ some payload
      → Refused refresh_answer s ⊎ Rotates
  unfolding refresh refresh_session
  read_case token payload c full read = elim (Bool-cases (is_type "refresh" payload.token_type)) [
    | inr other ↦
        inl (rw (c, full, read, other) ((http_exception 401 "Invalid token type", refl), refl))
    | inl typed ↦ elim (Option-cases payload.jti) [
      | inl no_jti ↦ inl (
          rw (c, full, read, typed, no_jti)
            ((http_exception 401 "Invalid refresh token", refl), refl))
      | inr (name, j) ↦ named_case token payload name c full read typed j
    ]
  ]

  -- The route refuses and changes nothing, or a token that is alive is revoked and replaced.
  pub refresh_cases : Refused refresh_answer s ⊎ Rotates
  unfolding refresh refresh_session
  refresh_cases = elim (Option-cases cookie) [
    | inl c ↦ inl (rw c ((http_exception 401 "Missing refresh token", refl), refl))
    | inr (token, c) ↦ elim (Bool-cases (str_eq token "")) [
      | inl blank ↦ inl (rw (c, blank) ((http_exception 401 "Missing refresh token", refl), refl))
      | inr full ↦ elim (Option-cases (read_token lib settings now token)) [
        | inl bad ↦
            inl (rw (c, full, bad) ((http_exception 401 "Invalid refresh token", refl), refl))
        | inr (payload, read) ↦ read_case token payload c full read
      ]
    ]
  ]
