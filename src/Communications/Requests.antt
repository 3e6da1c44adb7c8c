-- ===== src/Communications/Requests.antt =====
-- Every sequence of requests and events keeps communications_db well formed.
use campus_hr_b.Prelude.{
  ℕ, ◌≡◌, refl, inl, inr, Bool, List, [], ◌∷◌, ◌++◌, arith, str_eq, Bool-cases,
}
use campus_hr_b.Common.Enums.{
  open_, in_progress, UserRole, student, coordinator, CurrentUser, query_status_value,
}
use campus_hr_b.Events.{DomainEvent, event_type_value}
use campus_hr_b.Session.{Server}
use campus_hr_b.Table.{update_where}
use campus_hr_b.Table.Count.{count, count-append_one, count-append_fresh}
use campus_hr_b.Table.Rows.{count-update_where_same}
use campus_hr_b.Table.Order.{AllRows}
use campus_hr_b.Communications.Model.{
  Query, QueryMessage, Db, World, QueryCreate, QueryReply, QueryStatusUpdate, Stamp, is_query,
  message_of, is_notification, log_of,
}
use campus_hr_b.Communications.Service.{
  new_query, new_message, answered_by, taken_over, with_query_status, read_since, new_notification,
}
use campus_hr_b.Communications.Api.{post_query, post_reply, patch_query_status, read_notification}
use campus_hr_b.Communications.Consumer.{consumer, deliver}
use campus_hr_b.Communications.Cases.{
  post_query_cases, post_reply_cases, patch_query_status_cases, read_notification_cases, changed_db,
  with_message,
}
use campus_hr_b.Communications.Delivery.{deliver_cases, pending_log}
use campus_hr_b.Communications.Invariant.{IsValid, HasStatus}

AllRows-append_one :
    (P : Query → Type 0) (qs : List Query) (q : Query)
    → AllRows P qs
    → P q
    → AllRows P (qs ++ q ∷ [])
AllRows-append_one P [] q ps p = (p, tt)
AllRows-append_one P (x ∷ qs) q ps p = (ps.0, AllRows-append_one P qs q ps.1 p)

AllRows-update_where :
    (P : Query → Type 0) (k : Query → Bool) (f : Query → Query) (qs : List Query)
    → ((q : Query) → P q → P (f q))
    → AllRows P qs
    → AllRows P (update_where k f qs)
unfolding update_where
AllRows-update_where P k f [] keep ps = tt
AllRows-update_where P k f (q ∷ qs) keep ps = elim (Bool-cases (k q)) [
  | inl hit ↦ rw hit (keep q ps.0, AllRows-update_where P k f qs keep ps.1)
  | inr miss ↦ rw miss (ps.0, AllRows-update_where P k f qs keep ps.1)
]

taken_over-HasStatus : (c : ℕ) (q : Query) → HasStatus q → HasStatus (taken_over c q)
unfolding taken_over
taken_over-HasStatus c q h = elim (Bool-cases (str_eq q.status (query_status_value open_))) [
  | inl fresh ↦ (in_progress, rw fresh)
  | inr moved ↦ (h.0, rw moved h.1)
]

answered_by-HasStatus :
    (role : UserRole) (u : ℕ) (q : Query) → HasStatus q → HasStatus (answered_by role u q)
unfolding answered_by
answered_by-HasStatus student u q h = h
answered_by-HasStatus coordinator u q h = taken_over-HasStatus u q h

answered_by_id : (role : UserRole) (u : ℕ) (q : Query) → (answered_by role u q).id ≡ q.id
unfolding answered_by
answered_by_id student u q = refl
answered_by_id coordinator u q = refl

-- attributes other than the key are set
changed-IsValid :
    (db : Db) (k : ℕ) (f : Query → Query)
    → ((q : Query) → (f q).id ≡ q.id)
    → ((q : Query) → HasStatus q → HasStatus (f q))
    → IsValid db
    → IsValid (changed_db k f db)
changed-IsValid db k f same keep valid =
    let counts : (j : ℕ)
        → count (is_query j) (update_where (is_query k) f db.queries)
          ≡ count (is_query j) db.queries =
      λ j. count-update_where_same (is_query j) (is_query k) f db.queries (λ q h. rw (same q)) in
    record {
      one_query = λ j. rw (counts j) (valid.one_query j);
      one_notification = valid.one_notification;
      has_message = λ j. rw (counts j) (valid.has_message j);
      known_status =
          AllRows-update_where HasStatus (is_query k) f db.queries keep valid.known_status;
      one_log = valid.one_log;
    }

with_message-IsValid : (db : Db) (m : QueryMessage) → IsValid db → IsValid (with_message m db)
with_message-IsValid db m valid = record {
  one_query = valid.one_query;
  one_notification = valid.one_notification;
  has_message =
      λ j. omega (arith, valid.has_message j, count-append_one (message_of j) db.messages m);
  known_status = valid.known_status;
  one_log = valid.one_log;
}

module _ (s : Server Db World) (valid : IsValid s.db) where
  post_query-IsValid :
      (a b : Stamp) (user : CurrentUser) (request : QueryCreate)
      → count (is_query a.id) s.db.queries ≡ 0
      → IsValid (post_query a b user request s).1.db
  unfolding new_query new_message
  post_query-IsValid a b user request fresh = elim (post_query_cases a b user request s) [
    | inl refused ↦ rw refused.1 valid
    | inr (_, done) ↦ rw done (record {
      one_query = λ j.
          count-append_fresh (λ q. q.id) s.db.queries (new_query a user.id request) j fresh
            (valid.one_query j);
      one_notification = valid.one_notification;
      has_message = λ j. ground (
        arith,
        valid.has_message j,
        count-append_one (is_query j) s.db.queries (new_query a user.id request),
        count-append_one (message_of j) s.db.messages (new_message b a.id user.id request.body),
      );
      known_status =
          AllRows-append_one HasStatus s.db.queries (new_query a user.id request) valid.known_status
            (open_, refl);
      one_log = valid.one_log;
    })
  ]

  post_reply-IsValid :
      (row : Stamp) (k : ℕ) (user : CurrentUser) (request : QueryReply)
      → IsValid (post_reply row k user request s).1.db
  post_reply-IsValid row k user request = elim (post_reply_cases row k user request s) [
    | inl refused ↦ rw refused.1 valid
    | inr (q, _, _, done) ↦ rw done (
        with_message-IsValid _ (new_message row q.id user.id request.body) (
          changed-IsValid s.db q.id (answered_by user.role user.id)
            (answered_by_id user.role user.id) (answered_by-HasStatus user.role user.id) valid))
  ]

  patch_query_status-IsValid :
      (k : ℕ) (user : CurrentUser) (request : QueryStatusUpdate)
      → IsValid (patch_query_status k user request s).1.db
  unfolding with_query_status
  patch_query_status-IsValid k user request = elim (patch_query_status_cases k user request s) [
    | inl refused ↦ rw refused.1 valid
    | inr (q, _, _, _, done) ↦ rw done (
        changed-IsValid s.db q.id (with_query_status (query_status_value request.status))
          (λ q. refl) (λ q h. (request.status, refl)) valid)
  ]

  read_notification-IsValid :
      (now k : ℕ) (user : CurrentUser) → IsValid (read_notification now k user s).1.db
  unfolding read_since
  read_notification-IsValid now k user = elim (read_notification_cases now k user s) [
    | inl refused ↦ rw refused.1 valid
    | inr (note, _, done) ↦
        let counts : (j : ℕ)
            → count (is_notification j)
                (update_where (is_notification note.id) (read_since now) s.db.notifications)
              ≡ count (is_notification j) s.db.notifications =
          λ j.
            count-update_where_same (is_notification j) (is_notification note.id) (read_since now)
              s.db.notifications (λ n h. refl) in
        rw done (record {
          one_query = valid.one_query;
          one_notification = λ j. rw (counts j) (valid.one_notification j);
          has_message = valid.has_message;
          known_status = valid.known_status;
          one_log = λ j. rw (counts j) (valid.one_log j);
        })
  ]

  deliver-IsValid :
      (row : Stamp) (log_id : ℕ) (event : DomainEvent)
      → count (is_notification row.id) s.db.notifications ≡ 0
      → IsValid (deliver consumer row log_id event s).1.db
  unfolding new_notification
  deliver-IsValid row log_id event fresh = elim (deliver_cases row log_id s event) [
    | inl same ↦ rw same valid
    | inr (name, user, title, body, _, _, _, done) ↦
        let note = new_notification row user (event_type_value event.event_type) title body in
        rw done (record {
          one_query = valid.one_query;
          one_notification = λ j.
              count-append_fresh (λ n. n.id) s.db.notifications note j fresh
                (valid.one_notification j);
          has_message = valid.has_message;
          known_status = valid.known_status;
          one_log = λ j. ground (
            arith,
            valid.one_log j,
            count-append_one (is_notification j) s.db.notifications note,
            count-append_one (log_of j) s.db.delivery_logs (pending_log log_id row.id),
          );
        })
  ]

-- One request or one event, at any input. A row that is added has a key of its own (uuid4).
pub data Step (s : Server Db World) : Server Db World → Type 0 where
  asks :
      (a b : Stamp) (user : CurrentUser) (request : QueryCreate)
      → count (is_query a.id) s.db.queries ≡ 0
      → Step s (post_query a b user request s).1
  replies :
      (row : Stamp) (k : ℕ) (user : CurrentUser) (request : QueryReply)
      → Step s (post_reply row k user request s).1
  restates :
      (k : ℕ) (user : CurrentUser) (request : QueryStatusUpdate)
      → Step s (patch_query_status k user request s).1
  reads : (now k : ℕ) (user : CurrentUser) → Step s (read_notification now k user s).1
  receives :
      (row : Stamp) (log_id : ℕ) (event : DomainEvent)
      → count (is_notification row.id) s.db.notifications ≡ 0
      → Step s (deliver consumer row log_id event s).1

pub data Evolves (s : Server Db World) : Server Db World → Type 0 where
  here : Evolves s s
  next : {t u : Server Db World} → Evolves s t → Step t u → Evolves s u

Step-IsValid : {s t : Server Db World} → Step s t → IsValid s.db → IsValid t.db
Step-IsValid {s} (asks a b user request f) valid = post_query-IsValid s valid a b user request f
Step-IsValid {s} (replies row k user request) valid = post_reply-IsValid s valid row k user request
Step-IsValid {s} (restates k user request) valid = patch_query_status-IsValid s valid k user request
Step-IsValid {s} (reads now k user) valid = read_notification-IsValid s valid now k user
Step-IsValid {s} (receives row log_id event f) valid = deliver-IsValid s valid row log_id event f

-- From a well-formed communications_db every sequence of requests and events leads to a well-formed
-- one: keys are unique, each query has a message and a status that `QueryStatus` names, and each
-- notification has exactly one delivery log.
pub Evolves-IsValid : {s t : Server Db World} → IsValid s.db → Evolves s t → IsValid t.db
Evolves-IsValid valid here = valid
Evolves-IsValid valid (next r step) = Step-IsValid step (Evolves-IsValid valid r)
