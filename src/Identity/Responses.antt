-- ===== src/Identity/Responses.antt =====
-- `UserResponse` of services/identity-service/app/schemas.py: what an answer shows of a user.
use campus_hr_b.Prelude.{ℕ, String, Bool}
use campus_hr_b.Common.Enums.{UserRole}
use campus_hr_b.Identity.Model.{User}

pub record UserResponse : Type 0 where
  pub id : ℕ
  pub email : String
  pub role : UserRole
  pub is_active : Bool

abbrev pub user_response : User → UserResponse
user_response user = record {
  id = user.id;
  email = user.email;
  role = user.role;
  is_active = user.is_active;
}
