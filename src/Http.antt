-- ===== src/Http.antt =====
-- `httpx` as the services call it: a GET of a URL has an answer, or the transport fails. The body
-- is `none` where it is no JSON.
use campus_hr_b.Prelude.{ℕ, String, Option}
use campus_hr_b.Json.{Json}

pub data Reply : Type 0 where
  failed : Reply
  reply : ℕ → Option Json → Reply

abbrev pub HttpClient : Type 0
HttpClient = String → Reply

-- the URLs in a service's Settings (config.py)
pub record Settings : Type 0 where
  pub identity_service_url : String
  pub opportunity_service_url : String
