-- ===== src/Identity/Model.antt =====
-- services/identity-service/app/models.py and schemas.py, and the libraries that the service calls.
-- A time is a number of microseconds. `updated_at` of a profile, which the database sets, is left
-- out.
use campus_hr_b.Prelude.{ℕ, String, Bool, Option, List, ◌==◌, str_eq}
use campus_hr_b.Json.{ℤ}
use campus_hr_b.Common.Enums.{UserRole}
use campus_hr_b.Session.{Session, Server, Exec}

pub record User : Type 0 where
  pub id : ℕ
  pub email : String
  pub password_hash : String
  pub role : UserRole
  pub is_active : Bool
  pub created_at : ℕ

pub record StudentProfile : Type 0 where
  pub id : ℕ
  pub user_id : ℕ
  pub name : Option String
  pub cgpa : Option ℤ
  pub branch : Option String
  pub year : Option ℤ
  pub phone : Option String
  pub skills : Option (List String)

pub record RefreshToken : Type 0 where
  pub id : ℕ
  pub user_id : ℕ
  pub token_jti : String
  pub expires_at : ℕ
  pub revoked : Bool

-- auth_db
pub record Db : Type 0 where
  pub users : List User
  pub profiles : List StudentProfile
  pub refresh_tokens : List RefreshToken

pub record RegisterRequest : Type 0 where
  pub email : String
  pub password : String
  pub role : UserRole

pub record LoginRequest : Type 0 where
  pub email : String
  pub password : String

-- a field of an update that the request leaves out, or sets
pub data Change (A : Type 0) : Type 0 where
  unset : Change A
  set_to : A → Change A

pub record ProfileUpdate : Type 0 where
  pub name : Change (Option String)
  pub cgpa : Change (Option ℤ)
  pub branch : Change (Option String)
  pub year : Change (Option ℤ)
  pub phone : Change (Option String)
  pub skills : Change (Option (List String))

-- the claims of a token that the services read; `exp` is a time where a token is made, and its
-- seconds where one is read
pub record Claims : Type 0 where
  pub sub : Option String
  pub role : Option String
  pub token_type : Option String
  pub jti : Option String
  pub exp : Option ℕ

abbrev pub second : ℕ
second = 1000000

-- python-jose, passlib and the Redis client. `R` is what Redis holds.
pub record Libraries (R : Type 0) : Type 0 where
  -- `jwt.encode(payload, key, algorithm)`
  pub encode : Claims → String → String → String
  -- `jwt.decode(token, key, [algorithm])` at a time, or none where it raises a JWTError
  pub decode : ℕ → String → String → String → Option Claims
  -- `hash` draws a salt
  pub hash : ℕ → String → String
  pub verify : String → String → Bool
  -- `setex(key, ttl, value)` and `exists(key) == 1`, at a time
  pub setex : ℕ → String → ℕ → String → R → R
  pub exists_key : ℕ → String → R → Bool

-- config.py
pub record Settings : Type 0 where
  pub jwt_secret_key : String
  pub jwt_algorithm : String
  pub access_token_expire_minutes : ℕ
  pub refresh_token_expire_days : ℕ

-- what a route does to a cookie of the browser
pub data CookieChange : Type 0 where
  set_cookie : String → Option ℕ → CookieChange
  delete_cookie : CookieChange

pub record Response (A : Type 0) : Type 0 where
  pub body : A
  pub access_token : CookieChange
  pub refresh_token : CookieChange

-- the uuid4 and the server's now() of a row that is added
pub record Stamp : Type 0 where
  pub id : ℕ
  pub now : ℕ

abbrev pub Handler : Type 0 → Type 0 → Type 0
Handler R A = Exec (Session Db R) A

abbrev pub Route : Type 0 → Type 0 → Type 0
Route R A = Exec (Server Db R) A

-- `User.id == k`
abbrev pub has_id : ℕ → User → Bool
has_id k user = user.id == k

-- `User.email == email`
abbrev pub has_email : String → User → Bool
has_email email user = str_eq user.email email

-- `StudentProfile.user_id == k`
abbrev pub profile_of : ℕ → StudentProfile → Bool
profile_of k profile = profile.user_id == k

-- `RefreshToken.token_jti == jti`
abbrev pub has_jti : String → RefreshToken → Bool
has_jti jti row = str_eq row.token_jti jti

-- the primary key of a refresh token
abbrev pub is_token : ℕ → RefreshToken → Bool
is_token k row = row.id == k
