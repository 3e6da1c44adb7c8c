-- ===== src/Communications/Api.antt =====
-- services/communications-service/app/api/communications.py: the routes, behind the user whom
-- `get_current_user` gives and a session that `get_db` opens and closes.
use campus_hr_b.Prelude.{ℕ, List, not}
use campus_hr_b.Common.Enums.{CurrentUser, is_student, is_coordinator}
use campus_hr_b.Session.{http_exception, raise_if, ◌>>◌, with_db}
use campus_hr_b.Communications.Model.{
  Query, Notification, QueryCreate, QueryReply, QueryStatusUpdate, Stamp, Route,
}
use campus_hr_b.Communications.Service.{
  create_query, list_queries, reply_query, update_query_status, list_notifications, mark_read,
}

unfoldable pub post_query : Stamp → Stamp → CurrentUser → QueryCreate → Route Query
post_query query_row message_row user request = with_db do
  raise_if (not (is_student user.role)) (http_exception 403 "Student only")
  create_query query_row message_row user.id request

unfoldable pub get_queries : CurrentUser → Route (List Query)
get_queries user = with_db (list_queries user.id user.role)

unfoldable pub post_reply : Stamp → ℕ → CurrentUser → QueryReply → Route Query
post_reply row query_id user request = with_db (reply_query row query_id user.id user.role request)

unfoldable pub patch_query_status : ℕ → CurrentUser → QueryStatusUpdate → Route Query
patch_query_status query_id user request = with_db do
  raise_if (not (is_coordinator user.role)) (http_exception 403 "Coordinator only")
  update_query_status query_id user.id request

unfoldable pub get_notifications : CurrentUser → Route (List Notification)
get_notifications user = with_db (list_notifications user.id)

-- `now` is the service's clock
unfoldable pub read_notification : ℕ → ℕ → CurrentUser → Route Notification
read_notification now notification_id user = with_db (mark_read now notification_id user.id)
