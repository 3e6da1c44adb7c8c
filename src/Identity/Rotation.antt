-- ===== src/Identity/Rotation.antt =====
-- `refresh`: the row of a token that has served is found revoked.
use campus_hr_b.Prelude.{
  ℕ, ◌≡◌, refl, ap, sym, ◌∙◌, Option, some, String, List, arith, Bool, true, false,
}
use campus_hr_b.Common.Uuid.{to_text}
use campus_hr_b.Session.{Server}
use campus_hr_b.Table.{first, update_where}
use campus_hr_b.Table.Rows.{first-update_where_found, first-append_found}
use campus_hr_b.Identity.Model.{
  User, RefreshToken, Claims, Libraries, Settings, Db, has_jti, is_token,
}
use campus_hr_b.Identity.Service.{new_token}
use campus_hr_b.Identity.Refreshing.{revoked, rotated_db}

-- What the services rely on in python-jose: the claims of a token do not depend on when it is read.
abbrev pub Steady : {R : Type 0} → Libraries R → Type 0
Steady lib =
    (now now' : ℕ) (token key algorithm : String) (claims claims' : Claims)
    → lib.decode now token key algorithm ≡ some claims
    → lib.decode now' token key algorithm ≡ some claims'
    → claims ≡ claims'

module _ {R : Type 0} (lib : Libraries R) (settings : Settings) (now jti row_id : ℕ)
    (cookie : Option String) (s : Server Db R) where
  -- the row of a token that has served is found revoked
  pub served_revoked :
      (name : String) (row : RefreshToken) (user : User)
      → first (has_jti name) s.db.refresh_tokens ≡ some row
      → first
          (has_jti name)
          (rotated_db lib settings now jti row_id cookie s row user).refresh_tokens
        ≡ some (revoked row)
  served_revoked name row user e =
      first-append_found (has_jti name) (update_where (is_token row.id) revoked s.db.refresh_tokens)
        (new_token settings now row_id user (to_text jti))
        (first-update_where_found (has_jti name) (is_token row.id) revoked s.db.refresh_tokens
          (λ a. refl) e (ground arith))

module _ {R : Type 0} (lib : Libraries R) (settings : Settings) (now : ℕ)
    (cookie : Option String) where
  pub served_twice :
      (steady : Steady lib) (now' : ℕ) (tokens : List RefreshToken) (token token' : String)
      (payload payload' : Claims) (name name' : String) (row row' : RefreshToken)
      → cookie ≡ some token
      → cookie ≡ some token'
      → lib.decode now token settings.jwt_secret_key settings.jwt_algorithm ≡ some payload
      → lib.decode now' token' settings.jwt_secret_key settings.jwt_algorithm ≡ some payload'
      → payload.jti ≡ some name
      → payload'.jti ≡ some name'
      → first (has_jti name) tokens ≡ some row
      → first (has_jti name') tokens ≡ some row'
      → row.revoked ≡ true
      → row'.revoked ≡ true
  served_twice steady now' tokens token token' payload payload' name name' row row' c c' read read'
        j j' e e' dead =
      let same_token : token' ≡ token = some_of (sym c' ∙ c) in
      let same_payload : payload ≡ payload' =
        steady now now' token settings.jwt_secret_key settings.jwt_algorithm payload payload' read
          (rw same_token at read') in
      let same_name : name' ≡ name = some_of (sym j' ∙ ap (λ p. p.jti) (sym same_payload) ∙ j) in
      let same_row : row' ≡ row = some_of (sym (rw same_name at e') ∙ e) in
      ap (λ q. q.revoked) same_row ∙ dead
    where
      some_of : {A : Type 0} {a b : A} → some a ≡ some b → a ≡ b
      some_of q = cc q

pub clash : {b : Bool} → b ≡ true → b ≡ false → ⊥
clash h h' = cc
