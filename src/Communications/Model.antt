-- ===== src/Communications/Model.antt =====
-- services/communications-service/app/models.py and schemas.py.
use campus_hr_b.Prelude.{
  ℕ, String, Bool, true, false, Option, none, some, List, ◌==◌, ◌&&◌, ◌||◌, is_key,
}
use campus_hr_b.Common.Enums.{QueryStatus}
use campus_hr_b.Session.{Session, Server, Exec}

pub record Query : Type 0 where
  pub id : ℕ
  pub student_id : ℕ
  pub coordinator_id : Option ℕ
  pub opportunity_id : Option ℕ
  pub subject : String
  pub status : String
  pub created_at : ℕ

pub record QueryMessage : Type 0 where
  pub id : ℕ
  pub query_id : ℕ
  pub sender_id : ℕ
  pub body : String
  pub created_at : ℕ

pub record Notification : Type 0 where
  pub id : ℕ
  pub user_id : ℕ
  pub type : String
  pub title : String
  pub body : String
  pub read_at : Option ℕ
  pub created_at : ℕ

pub record NotificationDeliveryLog : Type 0 where
  pub id : ℕ
  pub notification_id : ℕ
  pub channel : String
  pub status : String

-- communications_db
pub record Db : Type 0 where
  pub queries : List Query
  pub messages : List QueryMessage
  pub notifications : List Notification
  pub delivery_logs : List NotificationDeliveryLog

pub record QueryCreate : Type 0 where
  pub subject : String
  pub body : String
  pub coordinator_id : Option ℕ
  pub opportunity_id : Option ℕ

pub record QueryReply : Type 0 where
  pub body : String

pub record QueryStatusUpdate : Type 0 where
  pub status : QueryStatus

-- the uuid4 and the server's now() of a row that is added
pub record Stamp : Type 0 where
  pub id : ℕ
  pub now : ℕ

-- the requests of this service change nothing but its database
abbrev pub World : Type 0
World = Unit

abbrev pub Handler : Type 0 → Type 0
Handler A = Exec (Session Db World) A

abbrev pub Route : Type 0 → Type 0
Route A = Exec (Server Db World) A

-- `Query.id == k`
abbrev pub is_query : ℕ → Query → Bool
is_query k q = q.id == k

-- `Query.student_id == s`
abbrev pub asked_by : ℕ → Query → Bool
asked_by s q = q.student_id == s

abbrev pub is_null : Option ℕ → Bool
is_null none = true
is_null (some c) = false

-- `(Query.coordinator_id == c) | (Query.coordinator_id.is_(None))`
abbrev pub handled_by : ℕ → Query → Bool
handled_by c q = is_key c q.coordinator_id || is_null q.coordinator_id

abbrev pub message_of : ℕ → QueryMessage → Bool
message_of k m = m.query_id == k

abbrev pub is_notification : ℕ → Notification → Bool
is_notification k n = n.id == k

-- `Notification.user_id == u`
abbrev pub sent_to : ℕ → Notification → Bool
sent_to u n = n.user_id == u

-- `Notification.id == k, Notification.user_id == u`
abbrev pub own_notification : ℕ → ℕ → Notification → Bool
own_notification k u n = n.id == k && n.user_id == u

abbrev pub log_of : ℕ → NotificationDeliveryLog → Bool
log_of k log = log.notification_id == k
