-- ===== src/Tests/Identities.antt =====
-- The identity service for one user, with libraries that are simple enough to run: a token is "A"
-- or "R" for its type and is read as that user's claims, and Redis is a list of keys.
use text.Mathlib.TextPositions.{eq_refl}
use campus_hr_b.Prelude.{
  ◌/◌, ◌≡◌, refl, ap, sym, ◌∙◌, Bool, true, false, none, some, String, Option, List, [], ◌∷◌, ◌++◌,
  arith, str_eq, ◌||◌, if◌then◌else◌,
}
use campus_hr_b.Common.Enums.{student}
use campus_hr_b.Common.Uuid.{to_text, hex_onto, digit, dash, of_text, read, digit_value}
use campus_hr_b.Session.{Server, ok, err, http_exception, Refused}
use campus_hr_b.Table.{first, update_where}
use campus_hr_b.Identity.Model.{
  User, RefreshToken, Claims, Libraries, Settings, LoginRequest, Response, set_cookie, Db, second,
  has_email, has_jti,
}
use campus_hr_b.Identity.Service.{
  access_claims, refresh_claims, new_token, authenticate, issue_tokens, add_token, refresh_session,
  revoke, user_of,
}
use campus_hr_b.Identity.Api.{
  login, refresh, logout, validate, set_auth_cookies, clear_auth_cookies,
}
use campus_hr_b.Identity.Sessions.{login_validates, Verifies}
use campus_hr_b.Identity.Rotation.{Steady}
use campus_hr_b.Identity.Lasting.{refresh_once}
use campus_hr_b.Common.AuthDeps.{get_current_user}
use campus_hr_b.Identity.Service.{read_token, revoke_refresh_token, extract_access_token}
use campus_hr_b.Identity.Gateway.{get_current_user_agrees}
use mathlib.Core.Path.{subst}
use campus_hr_b.Table.Count.{count}
use campus_hr_b.Identity.Invariant.{IsValid}
use campus_hr_b.Identity.Requests.{Step, signs_in, signs_out, refreshes, here, next, Runs-IsValid}
use campus_hr_b.Prelude.{ℕ, ◌+◌}
use campus_hr_b.Common.Enums.{coordinator}
use campus_hr_b.Identity.Model.{RegisterRequest}
use campus_hr_b.Identity.Api.{register}
use campus_hr_b.Identity.Service.{register_user, add_user, add_profile_of}
use campus_hr_b.Identity.Responses.{user_response}
use campus_hr_b.Identity.Joining.{register-login}
use campus_hr_b.Scripts.Seeds.{Draws, seed_dev_data}
use campus_hr_b.Scripts.Seeding.{seed_dev_data_again}
use campus_hr_b.Identity.Signout.{logout_ends, Remembers, Kept, kept, sets}
use campus_hr_b.Common.Bearer.{bearer}

abbrev rahul : User
rahul = record {
  id = 7;
  email = "r@x.in";
  password_hash = "pw";
  role = student;
  is_active = true;
  created_at = 0;
}

abbrev config : Settings
config = record {
  jwt_secret_key = "k";
  jwt_algorithm = "HS256";
  access_token_expire_minutes = 15;
  refresh_token_expire_days = 7;
}

abbrev access : Claims
access = record {
  sub = some (to_text 7);
  role = some "student";
  token_type = some "access";
  jti = none;
  exp = some 900;
}

abbrev rotation : Claims
rotation = record {
  sub = some (to_text 7);
  role = some "student";
  token_type = some "refresh";
  jti = some (to_text 1);
  exp = some 604800;
}

abbrev kind : Option String → String
kind none = "R"
kind (some t) = if str_eq t "access" then "A" else "R"

abbrev holds : String → List String → Bool
holds k [] = false
holds k (x ∷ xs) = str_eq x k || holds k xs

abbrev toy : Libraries (List String)
toy = record {
  encode = λ claims key algorithm. kind claims.token_type;
  decode = λ now token key algorithm.
      if str_eq token "A" then some access else if str_eq token "R" then some rotation else none;
  hash = λ salt password. password;
  verify = λ password hash. str_eq password hash;
  setex = λ now key ttl value r. key ∷ r;
  exists_key = λ now key r. holds key r;
}

abbrev campus : Server Db (List String)
campus = record {
  db = record { users = rahul ∷ []; profiles = []; refresh_tokens = [] };
  world = [];
}

abbrev password : LoginRequest
password = record { email = "r@x.in"; password = "pw" }

abbrev first_token : RefreshToken
first_token = new_token config 0 50 rahul (to_text 1)

abbrev signed_in : Server Db (List String)
signed_in = record campus { db = record campus.db { refresh_tokens = first_token ∷ [] } }

abbrev welcome : Response User
welcome = record {
  body = rahul;
  access_token = set_cookie "A" none;
  refresh_token = set_cookie "R" (some 604800);
}

login_runs : login toy config 0 1 50 password campus ≡ (ok welcome, signed_in)
unfolding login authenticate issue_tokens add_token set_auth_cookies first access_claims
    refresh_claims
login_runs = refl

toy-Verifies : Verifies toy config (access_claims config 0 rahul)
unfolding access_claims
toy-Verifies exp now e live =
    let same : 900000000 ≡ exp = ground (arith, e) in
    (refl, ap (λ x. some (record access { exp = some (x / second) })) same)

login_validates_example :
    (first (has_email "r@x.in") campus.db.users ≡ some rahul)
    × (str_eq "pw" "pw" ≡ true)
    × (true ≡ true)
    × (signed_in.db.users ≡ campus.db.users)
    × (signed_in.db.refresh_tokens ≡ [] ++ first_token ∷ [])
    × (validate toy config 60000000 none (some "A") [] ≡ (ok (7, student), []))
login_validates_example =
    login_validates toy config 0 1 50 password campus welcome signed_in "A" 60000000 [] toy-Verifies
      login_runs refl (omega arith) (omega arith) refl

toy-Steady : Steady toy
toy-Steady now now' token key algorithm claims claims' h h' = some_of (sym h ∙ h')
  where
    some_of : {a b : Claims} → some a ≡ some b → a ≡ b
    some_of q = cc q

abbrev rotated : Server Db (List String)
rotated = record campus {
  db = record campus.db {
    refresh_tokens =
        record first_token { revoked = true } ∷ new_token config 60 51 rahul (to_text 2) ∷ [];
  };
}

abbrev renewed : Response Unit
renewed = record {
  body = tt;
  access_token = set_cookie "A" none;
  refresh_token = set_cookie "R" (some 604800);
}

refresh_runs : refresh toy config 60 2 51 (some "R") signed_in ≡ (ok renewed, rotated)
unfolding refresh refresh_session user_of revoke issue_tokens add_token set_auth_cookies first
    update_where access_claims refresh_claims new_token to_text hex_onto digit dash of_text read
    digit_value
refresh_runs = refl

-- the student has signed out, and in again
abbrev in_again : Server Db (List String)
in_again =
    (login toy config 70 4 53 password (logout toy config 65 none (some "R") none rotated).1).1

fresh_jti :
    count
      (has_jti (to_text 4))
      (logout toy config 65 none (some "R") none rotated).1.db.refresh_tokens
    ≡ 0
unfolding count logout bearer revoke_refresh_token to_text hex_onto digit dash first new_token
fresh_jti = refl

refresh_once_example : Refused (refresh toy config 90 3 52 (some "R") in_again) in_again
refresh_once_example =
    refresh_once toy config 60 2 51 (some "R") signed_in in_again toy-Steady 90 3 52 renewed rotated
      refresh_runs
      (next (next here (signs_out toy config 65 none (some "R") none))
        (signs_in toy config 70 4 53 password fresh_jti))

-- a key that is held stays so
toy-holds :
    (key : String) (later : ℕ) (r r' : List String)
    → holds key r ≡ true
    → Kept toy key later r r'
    → holds key r' ≡ true
toy-holds key later r r' h kept = h
toy-holds key later r r' h (sets before at ttl key' value outlives) =
    ground (arith, toy-holds key later r _ h before)

toy-Remembers : Remembers toy
toy-Remembers at later ttl key value r r' live after =
    toy-holds key later (key ∷ r) r' (rw (eq_refl key) refl) after

abbrev signed_out : Server Db (List String)
signed_out = (logout toy config 0 none none (some "Bearer A") signed_in).1

sent : extract_access_token (some "Bearer A") none tt ≡ (ok "A", tt)
unfolding extract_access_token bearer
sent = refl

sent_by_cookie : extract_access_token none (some "A") tt ≡ (ok "A", tt)
unfolding extract_access_token bearer
sent_by_cookie = refl

logout_ends_example :
    ((logout toy config 0 none none (some "Bearer A") signed_in).0 ≡ ok clear_auth_cookies)
    × (validate toy config 60000000 none (some "A") ("blacklist:B" ∷ signed_out.world)
        ≡ (err (http_exception 401 "Token revoked"), "blacklist:B" ∷ signed_out.world))
logout_ends_example =
    logout_ends toy config 0 "A" none none (some "Bearer A") signed_in sent toy-Remembers access 900
      60000000 (some "A") none ("blacklist:B" ∷ signed_out.world) refl refl (λ e. omega (arith, e))
      (omega arith) (sets kept 10 900 "blacklist:B" "1" (λ e. omega arith)) sent_by_cookie

validated : validate toy config 60000000 none (some "A") [] ≡ (ok (7, student), [])
validated = let (_, _, _, _, _, named) = login_validates_example in named

get_current_user_agrees_example :
    (get_current_user
        (read_token toy config 60000000)
        (some (to_text 7))
        (some "student")
        none
        (some "A")
      ≡ ok (record { id = 7; role = student }))
    × (get_current_user (read_token toy config 60000000) none none none (some "A")
        ≡ ok (record { id = 7; role = student }))
get_current_user_agrees_example =
    get_current_user_agrees toy config 60000000 none (some "A") [] 7 student refl validated
      (omega arith)

campus-IsValid : IsValid campus.db
unfolding count
campus-IsValid = (λ k. ground arith, λ email. ground arith, λ k. omega arith, λ jti. omega arith)

signs_in_first : Step campus signed_in
unfolding count
signs_in_first = subst (λ z. Step campus z.1) login_runs (signs_in toy config 0 1 50 password refl)

refreshes_next : Step signed_in rotated
unfolding count new_token to_text hex_onto digit dash
refreshes_next =
    subst (λ z. Step signed_in z.1) refresh_runs (refreshes toy config 60 2 51 (some "R") refl)

Runs-IsValid_example : IsValid rotated.db
Runs-IsValid_example = Runs-IsValid campus-IsValid (next (next here signs_in_first) refreshes_next)

abbrev newcomer : RegisterRequest
newcomer = record { email = "p@x.in"; password = "secret"; role = coordinator }

abbrev joined_campus : Server Db (List String)
joined_campus = (register toy 1 (record { id = 8; now = 5 }) 9 newcomer campus).1

abbrev priya : User
priya = record {
  id = 8;
  email = "p@x.in";
  password_hash = "secret";
  role = coordinator;
  is_active = true;
  created_at = 5;
}

register_runs :
    register toy 1 (record { id = 8; now = 5 }) 9 newcomer campus ≡ (ok priya, joined_campus)
unfolding register register_user add_user add_profile_of first
register_runs = refl

register-login_example :
    (response : Response User) × (u : Server Db (List String)) × (login toy config 10 2 51
        (record { email = "p@x.in"; password = "secret" })
        joined_campus
      ≡ (ok response, u))
    × (user_response response.body
        ≡ record { id = 8; email = "p@x.in"; role = coordinator; is_active = true })
    × (u.db.users ≡ campus.db.users ++ priya ∷ [])
    × (u.db.profiles ≡ joined_campus.db.profiles)
register-login_example =
    register-login toy 1 (record { id = 8; now = 5 }) 9 newcomer campus joined_campus priya config
      10 2 51 register_runs refl

abbrev draws : ℕ → Draws
draws k = record {
  salts = λ i. k;
  rows = λ i. record { id = 100 + k + i; now = k };
  profile_rows = λ i. 200 + k + i;
}

seed_dev_data_again_example :
    seed_dev_data toy (draws 10) (seed_dev_data toy (draws 0) campus)
    ≡ seed_dev_data toy (draws 0) campus
seed_dev_data_again_example = seed_dev_data_again toy (draws 0) (draws 10) campus
