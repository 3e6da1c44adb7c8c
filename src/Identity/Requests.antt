-- ===== src/Identity/Requests.antt =====
-- Every sequence of requests keeps auth_db well formed.
use campus_hr_b.Prelude.{ℕ, ◌≡◌, Option, String}
use campus_hr_b.Common.Enums.{CurrentUser}
use campus_hr_b.Common.Uuid.{to_text}
use campus_hr_b.Session.{Server}
use campus_hr_b.Table.Count.{count}
use campus_hr_b.Identity.Model.{
  Db, RegisterRequest, LoginRequest, ProfileUpdate, Libraries, Settings, Stamp, has_id, profile_of,
  has_jti,
}
use campus_hr_b.Identity.Api.{register, login, refresh, logout, get_profile, put_profile}
use campus_hr_b.Identity.Invariant.{IsValid, login-IsValid, refresh-IsValid, register-IsValid}
use campus_hr_b.Identity.Revoking.{logout-IsValid}
use campus_hr_b.Identity.Profiles.{get_profile-IsValid, put_profile-IsValid}

-- One request, at any input. A row that is added has a key of its own (uuid4), and so has a name of
-- a refresh token. What Redis holds may change between requests.
pub data Step {R : Type 0} (s : Server Db R) : Server Db R → Type 0 where
  registers :
      (lib : Libraries R) (salt : ℕ) (row : Stamp) (profile_row : ℕ) (request : RegisterRequest)
      → count (has_id row.id) s.db.users ≡ 0
      → count (profile_of row.id) s.db.profiles ≡ 0
      → Step s (register lib salt row profile_row request s).1
  signs_in :
      (lib : Libraries R) (settings : Settings) (now jti row_id : ℕ) (request : LoginRequest)
      → count (has_jti (to_text jti)) s.db.refresh_tokens ≡ 0
      → Step s (login lib settings now jti row_id request s).1
  refreshes :
      (lib : Libraries R) (settings : Settings) (now jti row_id : ℕ) (cookie : Option String)
      → count (has_jti (to_text jti)) s.db.refresh_tokens ≡ 0
      → Step s (refresh lib settings now jti row_id cookie s).1
  signs_out :
      (lib : Libraries R) (settings : Settings) (now : ℕ) (a b c : Option String)
      → Step s (logout lib settings now a b c s).1
  gets_profile : (row_id k : ℕ) → Step s (get_profile row_id k s).1
  puts_profile :
      (row_id : ℕ) (request : ProfileUpdate) (user : CurrentUser)
      → Step s (put_profile row_id request user s).1
  redis_changes : (r : R) → Step s (record s { world = r })

pub data Runs {R : Type 0} (s : Server Db R) : Server Db R → Type 0 where
  here : Runs s s
  next : {t u : Server Db R} → Runs s t → Step t u → Runs s u

Step-IsValid : {R : Type 0} {s t : Server Db R} → IsValid s.db → Step s t → IsValid t.db
Step-IsValid {R} {s} v (registers lib salt row p request f g) =
    register-IsValid s v lib salt row p request f g
Step-IsValid {R} {s} v (signs_in lib settings now jti k request f) =
    login-IsValid s v lib settings now jti k request f
Step-IsValid {R} {s} v (refreshes lib settings now jti k cookie f) =
    refresh-IsValid s v lib settings now jti k cookie f
Step-IsValid {R} {s} v (signs_out lib settings now a b c) =
    logout-IsValid s v lib settings now a b c
Step-IsValid {R} {s} v (gets_profile row_id k) = get_profile-IsValid s v row_id k
Step-IsValid {R} {s} v (puts_profile row_id request user) =
    put_profile-IsValid s v row_id request user
Step-IsValid v (redis_changes r) = v

-- From a well-formed auth_db every sequence of requests leads to a well-formed one: the keys and
-- the emails of users are unique, no user has two profiles, and no name of a refresh token is given
-- twice.
pub Runs-IsValid : {R : Type 0} {s t : Server Db R} → IsValid s.db → Runs s t → IsValid t.db
Runs-IsValid v here = v
Runs-IsValid v (next steps step) = Step-IsValid (Runs-IsValid v steps) step
