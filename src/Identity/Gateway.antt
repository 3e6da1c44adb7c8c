-- ===== src/Identity/Gateway.antt =====
-- The user whom `validate` names is the user whom the services take a request for, by the gateway's
-- headers as by the token itself.
use Prim.Native.String.{◌++◌ as str_append}
use campus_hr_b.Prelude.{
  ℕ, ◌^◌, ◌<◌, ◌≡◌, refl, ap, sym, ◌∙◌, Option, none, some, String, true, false, Bool-cases,
  Option-cases, inl, inr, str_eq, eq_iff, ◌⊎◌,
}
use campus_hr_b.Common.Enums.{CurrentUser, UserRole, student, coordinator, role_value, role_of_text}
use campus_hr_b.Common.Uuid.{to_text, of_text, read}
use campus_hr_b.Common.Uuid.RoundTrip.{of_text-to_text}
use campus_hr_b.Common.Bearer.{bearer}
use campus_hr_b.Common.AuthDeps.{
  get_current_user, extract_token, user_of_texts, user_of_claims, decode_access_token, of_token,
  of_headers,
}
use campus_hr_b.Session.{Result, ok, err, Error, http_exception, key_error, value_error}
use campus_hr_b.Identity.Model.{Claims, Libraries, Settings}
use campus_hr_b.Identity.Service.{
  validate_token, extract_access_token, is_token_blacklisted, read_token, is_type,
}
use campus_hr_b.Identity.Api.{validate}
use campus_hr_b.Identity.Sessions.{role_of_text-role_value}

-- the text of a UUID is not empty
filled : (k : ℕ) → k < 2 ^ 128 → str_eq (to_text k) "" ≡ false
unfolding of_text read
filled k small = elim (Bool-cases (str_eq (to_text k) "")) [
  | inr full ↦ full
  | inl blank ↦
      let empty : to_text k ≡ "" = (eq_iff (to_text k) "").0 blank in
      absurd (cc (sym (of_text-to_text k small) ∙ ap of_text empty))
]

role_filled : (role : UserRole) → str_eq (role_value role) "" ≡ false
role_filled student = refl
role_filled coordinator = refl

by_headers :
    (decode : String → Option Claims) (k : ℕ) (role : UserRole)
    (authorization cookie : Option String)
    → k < 2 ^ 128
    → get_current_user decode (some (to_text k)) (some (role_value role)) authorization cookie
      ≡ ok (record { id = k; role = role })
unfolding get_current_user of_headers user_of_texts
by_headers decode k role authorization cookie small =
    rw (filled k small, role_filled role, of_text-to_text k small, role_of_text-role_value role)
      refl

module _ {R : Type 0} (lib : Libraries R) (settings : Settings) (now : ℕ)
    (authorization cookie : Option String) (r : R) where
  abbrev validate_answer : Result (ℕ × UserRole) × R
  validate_answer = validate lib settings now authorization cookie r

  abbrev Names : Type 0
  Names =
      (token : String) × (payload : Claims) × (k : ℕ) × (role : UserRole) × (extract_token
          authorization cookie
        ≡ some token)
      × (read_token lib settings now token ≡ some payload)
      × (user_of_claims payload ≡ some (record { id = k; role = role }))
      × (validate_answer ≡ (ok (k, role), r))

  abbrev Fails : Type 0
  Fails = (x : Error) × (validate_answer ≡ (err x, r))

  payload_case :
      (token : String) (payload : Claims)
      → extract_token authorization cookie ≡ some token
      → extract_access_token authorization cookie r ≡ (ok token, r)
      → lib.exists_key now (str_append "blacklist:" token) r ≡ false
      → read_token lib settings now token ≡ some payload
      → is_type "access" payload.token_type ≡ true
      → Fails ⊎ Names
  unfolding validate validate_token is_token_blacklisted user_of_claims user_of_texts
  payload_case token payload here given clean read typed = elim (Option-cases payload.sub) [
    | inl no_sub ↦ inl (key_error "sub", rw (given, clean, read, typed, no_sub) refl)
    | inr (sub, u) ↦ elim (Option-cases (of_text sub)) [
      | inl bad ↦ inl (
        value_error "badly formed hexadecimal UUID string",
        rw (given, clean, read, typed, u, bad) refl,
      )
      | inr (k, i) ↦ elim (Option-cases payload.role) [
        | inl no_role ↦ inl (key_error "role", rw (given, clean, read, typed, u, i, no_role) refl)
        | inr (name, n) ↦ elim (Option-cases (role_of_text name)) [
          | inl other ↦ inl (
            value_error "not a valid UserRole",
            rw (given, clean, read, typed, u, i, n, other) refl,
          )
          | inr (role, e) ↦ inr (
            token,
            payload,
            k,
            role,
            here,
            read,
            rw (typed, u, n, i, e) refl,
            rw (given, clean, read, typed, u, i, n, e) refl,
          )
        ]
      ]
    ]
  ]

  token_case :
      (token : String)
      → extract_token authorization cookie ≡ some token
      → extract_access_token authorization cookie r ≡ (ok token, r)
      → Fails ⊎ Names
  unfolding validate validate_token is_token_blacklisted
  token_case token here given =
      elim (Bool-cases (lib.exists_key now (str_append "blacklist:" token) r)) [
        | inl listed ↦ inl (http_exception 401 "Token revoked", rw (given, listed) refl)
        | inr clean ↦ elim (Option-cases (read_token lib settings now token)) [
          | inl bad ↦ inl (http_exception 401 "Invalid token", rw (given, clean, bad) refl)
          | inr (payload, read) ↦ elim (Bool-cases (is_type "access" payload.token_type)) [
            | inr other ↦
                inl (http_exception 401 "Invalid token type", rw (given, clean, read, other) refl)
            | inl typed ↦ payload_case token payload here given clean read typed
          ]
        ]
      ]

  validate_cases : Fails ⊎ Names
  unfolding validate validate_token extract_access_token extract_token
  validate_cases = elim (Option-cases (bearer authorization)) [
    | inr (token, b) ↦ token_case token (rw b refl) (rw b refl)
    | inl b ↦ elim (Option-cases cookie) [
      | inl c ↦ inl (http_exception 401 "Missing access token", rw (b, c) refl)
      | inr (token, c) ↦ elim (Bool-cases (str_eq token "")) [
        | inl blank ↦ inl (http_exception 401 "Missing access token", rw (b, c, blank) refl)
        | inr full ↦ token_case token (rw (b, c) refl) (rw (b, c, full) refl)
      ]
    ]
  ]

  by_token :
      (token : String) (payload : Claims) (user : CurrentUser)
      → read_token lib settings now "" ≡ none
      → extract_token authorization cookie ≡ some token
      → read_token lib settings now token ≡ some payload
      → user_of_claims payload ≡ some user
      → get_current_user (read_token lib settings now) none none authorization cookie ≡ ok user
  unfolding get_current_user decode_access_token of_token
  by_token token payload user no_token here read named = elim (Bool-cases (str_eq token "")) [
    | inr full ↦ rw (here, full, read, named) refl
    | inl blank ↦
        let empty : token ≡ "" = (eq_iff token "").0 blank in
        absurd (cc (sym read ∙ ap (read_token lib settings now) empty ∙ no_token))
  ]

  -- Where the empty text is no token: a request that `validate` accepts is taken by the other
  -- services for the user whom `validate` names, if the gateway puts that user into the headers,
  -- and also if they read the token themselves.
  pub get_current_user_agrees :
      (k : ℕ) (role : UserRole)
      → read_token lib settings now "" ≡ none
      → validate lib settings now authorization cookie r ≡ (ok (k, role), r)
      → k < 2 ^ 128
      → (get_current_user
            (read_token lib settings now)
            (some (to_text k))
            (some (role_value role))
            authorization
            cookie
          ≡ ok (record { id = k; role = role }))
        × (get_current_user (read_token lib settings now) none none authorization cookie
            ≡ ok (record { id = k; role = role }))
  get_current_user_agrees k role no_token h small = elim validate_cases [
    | inl (x, failed) ↦ cc (ap (λ z. z.0) (sym failed ∙ h))
    | inr (token, payload, k', role', here, read, named, done) ↦
        let same : (k', role') ≡ (k, role) = value_of (ap (λ z. z.0) (sym done ∙ h)) in
        (
          by_headers (read_token lib settings now) k role authorization cookie small,
          by_token token payload (record { id = k; role = role }) no_token here read
              (named ∙ ap (λ z. some (record { id = z.0; role = z.1 })) same),
        )
  ]
    where
      value_of : {a b : ℕ × UserRole} → ok a ≡ ok b → a ≡ b
      value_of q = cc q
