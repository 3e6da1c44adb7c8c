-- ===== src/Communications/Invariant.antt =====
-- What every request and every event keeps of communications_db.
use campus_hr_b.Prelude.{ℕ, ◌≡◌, ◌≤◌}
use campus_hr_b.Common.Enums.{QueryStatus, query_status_value}
use campus_hr_b.Table.Count.{count}
use campus_hr_b.Table.Order.{AllRows}
use campus_hr_b.Communications.Model.{Query, Db, is_query, message_of, is_notification, log_of}

-- the text is the value of a member of `QueryStatus`
abbrev pub HasStatus : Query → Type 0
HasStatus q = (status : QueryStatus) × (q.status ≡ query_status_value status)

pub record IsValid (db : Db) : Type 0 where
  -- primary keys
  pub one_query : (k : ℕ) → count (is_query k) db.queries ≤ 1
  pub one_notification : (k : ℕ) → count (is_notification k) db.notifications ≤ 1
  -- a query has the message that it began with
  pub has_message : (k : ℕ) → count (is_query k) db.queries ≤ count (message_of k) db.messages
  pub known_status : AllRows HasStatus db.queries
  -- each notification has one delivery log, and no other log is kept
  pub one_log :
      (k : ℕ) → count (log_of k) db.delivery_logs ≡ count (is_notification k) db.notifications
