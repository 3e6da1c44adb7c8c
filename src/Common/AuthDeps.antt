-- ===== src/Common/AuthDeps.antt =====
-- shared/campushire-common/campushire_common/auth_deps.py: the user that a request names, by the
-- gateway's headers or by an access token. `decode` is `jwt.decode` with the key and the algorithm
-- of the environment, at the time of the request.
use campus_hr_b.Prelude.{
  ℕ, String, Bool, false, Option, none, some, List, [], ◌∷◌, ◌||◌, not, str_eq, if◌then◌else◌,
}
use campus_hr_b.Common.Enums.{CurrentUser, UserRole, role_of_text, role_value}
use campus_hr_b.Common.Uuid.{of_text}
use campus_hr_b.Common.Bearer.{bearer}
use campus_hr_b.Session.{Result, ok, err, http_exception}
use campus_hr_b.Identity.Model.{Claims}
use campus_hr_b.Identity.Service.{is_type}

unfoldable pub extract_token : Option String → Option String → Option String
extract_token authorization cookie = given (bearer authorization)
  where
    given : Option String → Option String
    given (some token) = some token
    given none = cookie

-- `CurrentUser(id=UUID(id), role=UserRole(role))`, or none where one of them raises a ValueError
unfoldable pub user_of_texts : String → String → Option CurrentUser
user_of_texts id role = of_parts (of_text id) (role_of_text role)
  where
    of_parts : Option ℕ → Option UserRole → Option CurrentUser
    of_parts (some k) (some r) = some (record { id = k; role = r })
    of_parts _ _ = none

-- a claim that is missing is a KeyError, and counts as no user too
unfoldable pub user_of_claims : Claims → Option CurrentUser
unfolding user_of_texts
user_of_claims payload =
    if is_type "access" payload.token_type then of_claims payload.sub payload.role else none
  where
    of_claims : Option String → Option String → Option CurrentUser
    of_claims (some sub) (some role) = user_of_texts sub role
    of_claims _ _ = none

-- `user.role in roles`
abbrev pub is_role_in : UserRole → List UserRole → Bool
is_role_in role [] = false
is_role_in role (r ∷ roles) = str_eq (role_value role) (role_value r) || is_role_in role roles

unfoldable pub require_roles : List UserRole → CurrentUser → Result CurrentUser
require_roles roles user =
    if not (is_role_in user.role roles)
    then err (http_exception 403 "Insufficient permissions")
    else ok user

module _ (decode : String → Option Claims) where
  unfoldable pub decode_access_token : Option String → Option CurrentUser
  unfolding user_of_claims
  decode_access_token none = none
  decode_access_token (some token) = if str_eq token "" then none else of_payload (decode token)
    where
      of_payload : Option Claims → Option CurrentUser
      of_payload none = none
      of_payload (some payload) = user_of_claims payload

  unfoldable pub of_token : Option CurrentUser → Result CurrentUser
  of_token (some user) = ok user
  of_token none = err (http_exception 401 "Missing authentication")

  unfoldable pub of_headers : Option CurrentUser → Result CurrentUser
  of_headers (some user) = ok user
  of_headers none = err (http_exception 401 "Invalid authentication headers")

  unfoldable pub get_current_user :
      Option String → Option String → Option String → Option String → Result CurrentUser
  unfolding decode_access_token extract_token of_token of_headers user_of_texts
  get_current_user x_user_id x_user_role authorization cookie = by_headers x_user_id x_user_role
    where
      by_token : Result CurrentUser
      by_token = of_token (decode_access_token (extract_token authorization cookie))

      by_headers : Option String → Option String → Result CurrentUser
      by_headers (some id) (some role) =
          if str_eq id "" || str_eq role "" then by_token else of_headers (user_of_texts id role)
      by_headers _ _ = by_token
