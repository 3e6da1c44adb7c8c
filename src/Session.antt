-- ===== src/Session.antt =====
-- The unit of work of a request: `get_db` and the `Session` of services/*/app/database.py, and the
-- exceptions that the handlers raise. What a handler has changed reaches the database when it
-- commits; closing the session drops the rest, and what it did elsewhere stays done.
use campus_hr_b.Prelude.{ℕ, ◌≡◌, String, Bool, true, false, Option, none, some}

pub data Error : Type 0 where
  -- `HTTPException(status_code, detail)`
  http_exception : ℕ → String → Error
  value_error : String → Error
  key_error : String → Error
  type_error : Error
  runtime_error : String → Error
  integrity_error : Error
  -- the database refuses a value, as a text for a UUID that is none
  data_error : Error
  attribute_error : Error
  -- the transport failed, or an answer was no JSON
  client_error : Error
  -- openpyxl's IllegalCharacterError, of a text with a control character
  illegal_character_error : Error

pub data Result {ℓ} (A : Type ℓ) : Type ℓ where
  ok : A → Result A
  err : Error → Result A

abbrev pub Exec {ℓ} : Type ℓ → Type ℓ → Type ℓ
Exec S A = S → Result A × S

-- the database of a service and what else its requests can change
pub record Server {ℓ} (D W : Type ℓ) : Type ℓ where
  pub db : D
  pub world : W

-- `saved` is what the database holds, `work` what the session sees
pub record Session {ℓ} (D W : Type ℓ) : Type ℓ where
  pub saved : D
  pub work : D
  pub world : W

module _ {ℓ} {S A : Type ℓ} where
  abbrev pub pure : A → Exec S A
  pure a s = (ok a, s)

  abbrev pub raise : Error → Exec S A
  raise e s = (err e, s)

  abbrev pub lift : Result A → Exec S A
  lift r s = (r, s)

  -- `if not row: raise ...`
  abbrev pub or_raise : Option A → Error → Exec S A
  or_raise none e = raise e
  or_raise (some a) e = pure a

-- a raise skips the rest
abbrev pub continue {ℓ} : {S A B : Type ℓ} → (A → Exec S B) → Result A → S → Result B × S
continue f (ok a) t = f a t
continue f (err e) t = (err e, t)

infixl 5 ◌>>=◌ ◌>>◌
abbrev pub ◌>>=◌ {ℓ} : {S A B : Type ℓ} → Exec S A → (A → Exec S B) → Exec S B
◌>>=◌ m f s = let (r, t) = m s in continue f r t

abbrev pub ◌>>◌ {ℓ} : {S A B : Type ℓ} → Exec S A → Exec S B → Exec S B
m >> n = m >>= λ _. n

-- `if b: raise ...`
abbrev pub raise_if {ℓ} : {S : Type ℓ} → Bool → Error → Exec S (Unit {ℓ})
raise_if true e s = (err e, s)
raise_if false e s = (ok tt, s)

module _ {ℓ} {D W A : Type ℓ} where
  -- `db.query(...)`
  abbrev pub query : (D → A) → Exec (Session D W) A
  query f s = (ok (f s.work), s)

  -- a call that leaves the database alone
  abbrev pub outside : Exec W A → Exec (Session D W) A
  outside m s = let (r, w) = m s.world in (r, record s { world = w })

  -- a handler behind `Depends(get_db)`
  abbrev pub with_db : Exec (Session D W) A → Exec (Server D W) A
  with_db m s =
      let (r, t) = m (record { saved = s.db; work = s.db; world = s.world }) in
      (r, record { db = t.saved; world = t.world })

module _ {ℓ} {D W : Type ℓ} where
  -- `db.add(...)`, and an attribute of a row that is set
  abbrev pub modify : (D → D) → Exec (Session D W) (Unit {ℓ})
  modify f s = (ok tt, record s { work = f s.work })

  -- `db.commit()`
  abbrev pub commit : Exec (Session D W) (Unit {ℓ})
  commit s = (ok tt, record s { saved = s.work })

-- A route that answers with an error and has changed nothing.
abbrev pub Refused {ℓ} : {A S : Type ℓ} → Result A × S → S → Type ℓ
Refused (r, t) s = ((e : Error) × (r ≡ err e)) × (t ≡ s)
