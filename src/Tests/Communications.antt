-- ===== src/Tests/Communications.antt =====
-- The communications service on a small campus: student 7 has asked a question, coordinators 9 and
-- 8 may answer it, and an event for student 7 has come in.
use campus_hr_b.Prelude.{ℕ, ◌≡◌, ◌≢◌, refl, Bool, none, some, List, [], ◌∷◌, ◌++◌, arith, ◌&&◌}
use campus_hr_b.Json.{text, entry, end, get}
use campus_hr_b.Common.Enums.{CurrentUser, student, coordinator, resolved}
use campus_hr_b.Common.Uuid.{to_text}
use campus_hr_b.Events.{DomainEvent, application_shortlisted, event_type_value}
use campus_hr_b.Session.{Server, ok}
use campus_hr_b.Table.{first}
use campus_hr_b.Table.Count.{count}
use campus_hr_b.Table.Order.{IsNewestFirst}
use campus_hr_b.Communications.Responses.{query_response, QueryMessageResponse}
use campus_hr_b.Communications.Model.{
  Query, QueryMessage, own_notification, Notification, Db, World, QueryReply, QueryCreate,
  QueryStatusUpdate, Stamp, is_query, is_notification, sent_to,
}
use campus_hr_b.Communications.Service.{
  reply_query, mark_read, new_message, answered_by, read_since, new_notification,
}
use campus_hr_b.Communications.Api.{
  post_query, get_queries, post_reply, patch_query_status, get_notifications, read_notification,
}
use campus_hr_b.Communications.Consumer.{consumer, deliver, titles}
use campus_hr_b.Communications.Invariant.{IsValid}
use campus_hr_b.Communications.Requests.{here, next, asks, replies, restates, Evolves-IsValid}
use campus_hr_b.Communications.Delivery.{deliver_student, notified_db}
use campus_hr_b.Communications.Desk.{get_queries_visible, on_desk, post_reply_success, after_reply}
use campus_hr_b.Communications.Inbox.{get_notifications_own, read_notification_success}

abbrev learner : CurrentUser
learner = record { id = 7; role = student }

abbrev staff : CurrentUser
staff = record { id = 9; role = coordinator }

abbrev colleague : CurrentUser
colleague = record { id = 8; role = coordinator }

abbrev no_rows : Db
no_rows = record { queries = []; messages = []; notifications = []; delivery_logs = [] }

abbrev start : Server Db World
start = record { db = no_rows; world = tt }

abbrev row : ℕ → Stamp
row k = record { id = k; now = 100 }

abbrev question : QueryCreate
question = record { subject = "Date"; body = "When?"; coordinator_id = none; opportunity_id = none }

abbrev asked : Query
asked = record {
  id = 1;
  student_id = 7;
  coordinator_id = none;
  opportunity_id = none;
  subject = "Date";
  status = "Open";
  created_at = 100;
}

abbrev note : Notification
note = record {
  id = 5;
  user_id = 7;
  type = "APPLICATION_SHORTLISTED";
  title = "Shortlisted";
  body = "You have been shortlisted.";
  read_at = none;
  created_at = 90;
}

-- the question and a notification
abbrev busy : Server Db World
busy = record {
  db = record {
    queries = asked ∷ [];
    messages = new_message (row 2) 1 7 "When?" ∷ [];
    notifications = note ∷ [];
    delivery_logs =
        record { id = 6; notification_id = 5; channel = "email"; status = "pending" } ∷ [];
  };
  world = tt;
}

no_rows-IsValid : IsValid no_rows
unfolding count
no_rows-IsValid = record {
  one_query = λ k. omega arith;
  one_notification = λ k. omega arith;
  has_message = λ k. omega arith;
  known_status = tt;
  one_log = λ k. refl;
}

-- an event that names student 7
abbrev event : DomainEvent
event = record {
  event_type = application_shortlisted;
  payload = entry "student_id" (text (to_text 7)) end;
  actor_id = some 9;
  correlation_id = none;
}

fresh_query : count (is_query 1) start.db.queries ≡ 0
unfolding count
fresh_query = refl

abbrev answer : QueryReply
answer = record { body = "Monday." }

abbrev resolve : QueryStatusUpdate
resolve = record { status = resolved }

abbrev after_ask : Server Db World
after_ask = (post_query (row 1) (row 2) learner question start).1

-- one question is asked, answered and resolved
Evolves-IsValid_example :
    IsValid
      (patch_query_status 1 staff resolve (post_reply (row 3) 1 staff answer after_ask).1).1.db
Evolves-IsValid_example = Evolves-IsValid no_rows-IsValid (
    next
      (next (next here (asks (row 1) (row 2) learner question fresh_query))
        (replies (row 3) 1 staff answer))
      (restates 1 staff resolve))

named_student : get "student_id" event.payload ≡ some (text (to_text 7))
unfolding get
named_student = refl

titled_event :
    titles event.event_type event.payload ≡ some ("Shortlisted", text "You have been shortlisted.")
unfolding titles
titled_event = refl

deliver_student_example : deliver consumer (row 4) 44 event busy ≡ (
  ok tt,
  record busy {
    db =
        notified_db
          (new_notification
            (row 4)
            7
            (event_type_value event.event_type)
            "Shortlisted"
            "You have been shortlisted.")
          44
          busy.db;
  },
)
deliver_student_example =
    deliver_student (row 4) 44 event 7 "Shortlisted" "You have been shortlisted." busy (omega arith)
      named_student titled_event

get_queries_visible_example :
    (rows : List Query) × (get_queries staff busy ≡ (ok rows, busy))
    × IsNewestFirst (λ q. q.created_at) rows
    × ((p : Query → Bool) → count p rows ≡ count (λ q. on_desk staff q && p q) busy.db.queries)
get_queries_visible_example = get_queries_visible staff busy

abbrev in_hand : Query
in_hand = record asked { coordinator_id = some 9; status = "In Progress" }

abbrev after_answer : Server Db World
after_answer = (post_reply (row 3) 1 staff answer busy).1

answer_runs : post_reply (row 3) 1 staff answer busy ≡ (ok in_hand, after_answer)
unfolding post_reply reply_query first answered_by
answer_runs = refl

post_reply_success_example :
    (q : Query) × (first (is_query 1) busy.db.queries ≡ some q)
    × (staff.role ≡ student → q.student_id ≡ 9)
    × (in_hand ≡ after_reply coordinator 9 q)
    × (first (is_query 1) after_answer.db.queries ≡ some in_hand)
    × (after_answer.db.messages
        ≡ busy.db.messages
          ++ record {
            id = 3;
            query_id = 1;
            sender_id = 9;
            body = "Monday.";
            created_at = (row 3).now;
          }
            ∷ [])
    × ((select : List QueryMessage → List QueryMessage)
        → ((p : QueryMessage → Bool) (xs : List QueryMessage) → count p (select xs) ≡ count p xs)
        → (p : QueryMessageResponse → Bool)
        → count p (query_response select after_answer.db in_hand).messages
          ≡ count p (
              (query_response select busy.db q).messages
              ++ record { id = 3; sender_id = 9; body = "Monday."; created_at = (row 3).now } ∷ []))
    × ((j : ℕ)
        → j ≢ 1
        → first (is_query j) after_answer.db.queries ≡ first (is_query j) busy.db.queries)
post_reply_success_example =
    post_reply_success (row 3) 1 staff answer busy in_hand after_answer answer_runs

get_notifications_own_example :
    (rows : List Notification) × (get_notifications learner busy ≡ (ok rows, busy))
    × IsNewestFirst (λ n. n.created_at) rows
    × ((p : Notification → Bool)
        → count p rows ≡ count (λ n. sent_to 7 n && p n) busy.db.notifications)
get_notifications_own_example = get_notifications_own learner busy

abbrev after_read : Server Db World
after_read = (read_notification 120 5 learner busy).1

abbrev read_note : Notification
read_note = record note { read_at = some 120 }

read_runs : read_notification 120 5 learner busy ≡ (ok read_note, after_read)
unfolding read_notification mark_read first read_since
read_runs = refl

read_notification_success_example :
    (old : Notification) × (first (own_notification 5 7) busy.db.notifications ≡ some old)
    × (read_note ≡ record old { read_at = some 120 })
    × (first (own_notification 5 7) after_read.db.notifications ≡ some read_note)
    × (read_note.id ≡ 5)
    × (read_note.user_id ≡ 7)
    × ((j : ℕ)
        → j ≢ 5
        → first (is_notification j) after_read.db.notifications
          ≡ first (is_notification j) busy.db.notifications)
    × (after_read.db ≡ record busy.db { notifications = after_read.db.notifications })
read_notification_success_example =
    read_notification_success learner busy 120 5 read_note after_read read_runs
