-- ===== src/Identity/Revoking.antt =====
-- Signing out keeps auth_db well formed.
use campus_hr_b.Prelude.{
  ℕ, ◌≡◌, refl, inl, inr, Option, none, some, String, ◌==◌, str_eq, Bool-cases, Option-cases,
}
use campus_hr_b.Session.{Server, Result, ok, err}
use campus_hr_b.Table.{first}
use campus_hr_b.Identity.Model.{RefreshToken, Db, Libraries, Settings, has_jti, Claims}
use campus_hr_b.Identity.Service.{
  revoke_refresh_token, revoke_payload, revoke_found, revoke, read_token, blacklist_token,
  extract_access_token,
}
use campus_hr_b.Identity.Api.{logout, blacklist_extracted}
use campus_hr_b.Identity.Signout.{revoke_refresh_token-Quiet}
use campus_hr_b.Identity.Invariant.{IsValid, count-revoke}

blacklist_token-ok :
    {R : Type 0} (lib : Libraries R) (settings : Settings) (now : ℕ) (token : String) (r : R)
    → (blacklist_token lib settings now token r).0 ≡ ok tt
unfolding blacklist_token
blacklist_token-ok lib settings now token r =
    elim (Option-cases (read_token lib settings now token)) [
      | inl e ↦ rw e refl
      | inr (payload, e) ↦ elim (Option-cases payload.exp) [
        | inl x ↦ rw (e, x) refl
        | inr (exp, x) ↦ elim (Bool-cases (exp == 0)) [
          | inl z ↦ rw (e, x, z) refl
          | inr z ↦ rw (e, x, z) refl
        ]
      ]
    ]

pub blacklist_extracted-ok :
    {R : Type 0} (lib : Libraries R) (settings : Settings) (now : ℕ) (x : Result String) (r : R)
    → (blacklist_extracted lib settings now x r).0 ≡ ok tt
unfolding blacklist_extracted
blacklist_extracted-ok lib settings now (err e) r = refl
blacklist_extracted-ok lib settings now (ok token) r = blacklist_token-ok lib settings now token r

module _ {R : Type 0} (s : Server Db R) (valid : IsValid s.db) where
  revoke_found-IsValid :
      (lib : Libraries R) (settings : Settings) (now : ℕ) (found : Option RefreshToken) (r : R)
      → IsValid
          (revoke_found lib settings now found
            (record { saved = s.db; work = s.db; world = r })).1.saved
  unfolding revoke_found revoke
  revoke_found-IsValid lib settings now none r = valid
  revoke_found-IsValid lib settings now (some row) r = elim (Bool-cases row.revoked) [
    | inl old ↦ rw old valid
    | inr new ↦
        rw new (
          valid.0,
          valid.1,
          valid.2,
          λ j. rw (count-revoke j row.id s.db.refresh_tokens) (valid.3 j),
        )
  ]

  revoke_payload-IsValid :
      (lib : Libraries R) (settings : Settings) (now : ℕ) (payload : Option Claims) (r : R)
      → IsValid
          (revoke_payload lib settings now payload
            (record { saved = s.db; work = s.db; world = r })).1.saved
  unfolding revoke_payload
  revoke_payload-IsValid lib settings now none r = valid
  revoke_payload-IsValid lib settings now (some payload) r = elim (Option-cases payload.jti) [
    | inl e ↦ rw e valid
    | inr (jti, e) ↦ elim (Bool-cases (str_eq jti "")) [
      | inl blank ↦ rw (e, blank) valid
      | inr named ↦
          rw (e, named)
            (revoke_found-IsValid lib settings now (first (has_jti jti) s.db.refresh_tokens) r)
    ]
  ]

  revoke_refresh_token-IsValid :
      (lib : Libraries R) (settings : Settings) (now : ℕ) (cookie : Option String) (r : R)
      → IsValid
          (revoke_refresh_token lib settings now cookie
            (record { saved = s.db; work = s.db; world = r })).1.saved
  unfolding revoke_refresh_token
  revoke_refresh_token-IsValid lib settings now none r = valid
  revoke_refresh_token-IsValid lib settings now (some token) r =
      elim (Bool-cases (str_eq token "")) [
        | inl blank ↦ rw blank valid
        | inr full ↦
            rw full (revoke_payload-IsValid lib settings now (read_token lib settings now token) r)
      ]

  pub logout-IsValid :
      (lib : Libraries R) (settings : Settings) (now : ℕ) (a b c : Option String)
      → IsValid (logout lib settings now a b c s).1.db
  unfolding logout
  logout-IsValid lib settings now a b c =
      let extracted = (extract_access_token c a tt).0 in
      let r = (blacklist_extracted lib settings now extracted s.world).1 in
      let listed = blacklist_extracted-ok lib settings now extracted s.world in
      let fine =
        (revoke_refresh_token-Quiet lib settings now b
          (record { saved = s.db; work = s.db; world = r })).0 in
      rw (listed, fine) (revoke_refresh_token-IsValid lib settings now b r)
