-- ===== src/Communications/Service.antt =====
-- services/communications-service/app/services/communications_service.py. `db.refresh` re-reads the
-- row that the session has just committed, and gives that row.
use campus_hr_b.Prelude.{
  ℕ, String, Bool, false, none, some, List, [], ◌∷◌, ◌++◌, not, ◌==◌, ◌&&◌, if◌then◌else◌, str_eq,
  is_key,
}
use campus_hr_b.Common.Enums.{
  UserRole, is_student, is_coordinator, open_, in_progress, query_status_value,
}
use campus_hr_b.Session.{
  http_exception, pure, or_raise, raise_if, ◌>>=◌, ◌>>◌, query, modify, commit,
}
use campus_hr_b.Table.{first, filter, update_where, order_by_desc}
use campus_hr_b.Communications.Model.{
  Query, QueryMessage, Notification, QueryCreate, QueryReply, QueryStatusUpdate, Stamp, Handler,
  is_query, asked_by, handled_by, is_null, is_notification, sent_to, own_notification,
}

-- the mail that `send_email` builds, with the settings of config.py
pub record EmailMessage : Type 0 where
  pub from : String
  pub to : String
  pub subject : String
  pub body : String

-- `smtp` is what `aiosmtplib.send` does with the message: true unless it raises
unfoldable pub send_email :
    (EmailMessage → Bool) → String → String → String → String → String → Bool
send_email smtp smtp_user smtp_from to subject body =
    if str_eq smtp_user ""
    then false
    else smtp (record { from = smtp_from; to = to; subject = subject; body = body })

-- `db.add(Notification(...))`
unfoldable pub add_notification : Notification → Handler Unit
add_notification note = modify λ db. record db { notifications = db.notifications ++ note ∷ [] }

unfoldable pub new_notification : Stamp → ℕ → String → String → String → Notification
new_notification row user_id ntype title body = record {
  id = row.id;
  user_id = user_id;
  type = ntype;
  title = title;
  body = body;
  read_at = none;
  created_at = row.now;
}

unfoldable pub create_notification : Stamp → ℕ → String → String → String → Handler Notification
unfolding add_notification
create_notification row user_id ntype title body = do
  let note = new_notification row user_id ntype title body
  add_notification note
  commit
  pure note

unfoldable pub new_query : Stamp → ℕ → QueryCreate → Query
new_query row student_id request = record {
  id = row.id;
  student_id = student_id;
  coordinator_id = request.coordinator_id;
  opportunity_id = request.opportunity_id;
  subject = request.subject;
  status = query_status_value open_;
  created_at = row.now;
}

unfoldable pub new_message : Stamp → ℕ → ℕ → String → QueryMessage
new_message row query_id sender_id body = record {
  id = row.id;
  query_id = query_id;
  sender_id = sender_id;
  body = body;
  created_at = row.now;
}

unfoldable pub add_query : Query → Handler Unit
add_query q = modify λ db. record db { queries = db.queries ++ q ∷ [] }

unfoldable pub add_message : QueryMessage → Handler Unit
add_message m = modify λ db. record db { messages = db.messages ++ m ∷ [] }

unfoldable pub create_query : Stamp → Stamp → ℕ → QueryCreate → Handler Query
unfolding add_query add_message
create_query query_row message_row student_id request = do
  let q = new_query query_row student_id request
  add_query q
  add_message (new_message message_row q.id student_id request.body)
  commit
  pure q

-- attributes of a query are set
unfoldable pub set_query : ℕ → (Query → Query) → Handler Unit
set_query k f = modify λ db. record db { queries = update_where (is_query k) f db.queries }

-- `if role == UserRole.COORDINATOR: ...`
unfoldable pub taken_over : ℕ → Query → Query
taken_over coordinator_id q = record q {
  coordinator_id = some coordinator_id;
  status =
      if str_eq q.status (query_status_value open_)
      then query_status_value in_progress
      else q.status;
}

unfoldable pub answered_by : UserRole → ℕ → Query → Query
unfolding taken_over
answered_by role sender_id q = if is_coordinator role then taken_over sender_id q else q

unfoldable pub reply_query : Stamp → ℕ → ℕ → UserRole → QueryReply → Handler Query
unfolding set_query add_message
reply_query row query_id sender_id role request = do
  found ← query λ db. first (is_query query_id) db.queries
  q ← or_raise found (http_exception 404 "Query not found")
  raise_if (is_student role && not (q.student_id == sender_id)) (http_exception 403 "Forbidden")
  set_query q.id (answered_by role sender_id)
  add_message (new_message row q.id sender_id request.body)
  commit
  pure (answered_by role sender_id q)

unfoldable pub with_query_status : String → Query → Query
with_query_status status q = record q { status = status }

unfoldable pub update_query_status : ℕ → ℕ → QueryStatusUpdate → Handler Query
unfolding set_query
update_query_status query_id coordinator_id request = do
  found ← query λ db. first (is_query query_id) db.queries
  q ← or_raise found (http_exception 404 "Query not found")
  raise_if (not (is_null q.coordinator_id) && not (is_key coordinator_id q.coordinator_id))
      (http_exception 403 "Forbidden")
  set_query q.id (with_query_status (query_status_value request.status))
  commit
  pure (with_query_status (query_status_value request.status) q)

-- the filter that `list_queries` puts on its query
unfoldable pub queries_for : ℕ → UserRole → List Query → List Query
queries_for user_id role queries =
    if is_student role
    then filter (asked_by user_id) queries
    else if is_coordinator role
    then filter (handled_by user_id) queries
    else queries

unfoldable pub list_queries : ℕ → UserRole → Handler (List Query)
list_queries user_id role =
    query λ db. order_by_desc (λ q. q.created_at) (queries_for user_id role db.queries)

unfoldable pub list_notifications : ℕ → Handler (List Notification)
list_notifications user_id =
    query λ db. order_by_desc (λ n. n.created_at) (filter (sent_to user_id) db.notifications)

unfoldable pub read_since : ℕ → Notification → Notification
read_since now n = record n { read_at = some now }

unfoldable pub mark_read : ℕ → ℕ → ℕ → Handler Notification
mark_read now notification_id user_id = do
  found ← query λ db. first (own_notification notification_id user_id) db.notifications
  note ← or_raise found (http_exception 404 "Not found")
  modify λ db. record db {
    notifications = update_where (is_notification note.id) (read_since now) db.notifications;
  }
  commit
  pure (read_since now note)
