-- ===== src/Communications/Cases.antt =====
-- What each route of the communications service can do: it refuses and changes nothing, or it
-- makes one known change.
use campus_hr_b.Prelude.{
  ℕ, ◌≡◌, refl, ◌⊎◌, inl, inr, true, some, [], ◌∷◌, ◌++◌, arith, ◌==◌, ◌&&◌, not, is_key,
  Bool-cases, Option-cases,
}
use campus_hr_b.Common.Enums.{
  CurrentUser, UserRole, student, coordinator, is_student, query_status_value,
}
use campus_hr_b.Session.{Server, Result, ok, http_exception, Refused}
use campus_hr_b.Table.{first, update_where}
use campus_hr_b.Communications.Model.{
  Query, QueryMessage, Notification, Db, World, QueryCreate, QueryReply, QueryStatusUpdate, Stamp,
  is_query, is_null, handled_by, is_notification, own_notification,
}
use campus_hr_b.Communications.Service.{
  create_query, reply_query, update_query_status, mark_read, new_query, new_message, answered_by,
  with_query_status, read_since,
}
use campus_hr_b.Communications.Api.{post_query, post_reply, patch_query_status, read_notification}

abbrev pub asked_db : Query → QueryMessage → Db → Db
asked_db q m db = record db { queries = db.queries ++ q ∷ []; messages = db.messages ++ m ∷ [] }

-- `post_query`: only a student asks
module _ (query_row message_row : Stamp) (user : CurrentUser) (request : QueryCreate)
    (s : Server Db World) where
  abbrev asked : Result Query × Server Db World
  asked =
      let q = new_query query_row user.id request in
      (ok q, record s { db = asked_db q (new_message message_row q.id user.id request.body) s.db })

  pub post_query_cases :
      Refused (post_query query_row message_row user request s) s
      ⊎ ((user.role ≡ student) × (post_query query_row message_row user request s ≡ asked))
  unfolding post_query create_query
  post_query_cases = role_case user.role refl
    where
      role_case :
          (r : UserRole)
          → user.role ≡ r
          → Refused (post_query query_row message_row user request s) s
            ⊎ ((user.role ≡ student) × (post_query query_row message_row user request s ≡ asked))
      role_case student r = inr (r, rw r)
      role_case coordinator r = inl (rw r ((http_exception 403 "Student only", refl), refl))

abbrev pub changed_db : ℕ → (Query → Query) → Db → Db
changed_db k f db = record db { queries = update_where (is_query k) f db.queries }

abbrev pub with_message : QueryMessage → Db → Db
with_message m db = record db { messages = db.messages ++ m ∷ [] }

-- `post_reply`: a student replies to an own query, a coordinator to any
module _ (row : Stamp) (k : ℕ) (user : CurrentUser) (request : QueryReply)
    (s : Server Db World) where
  abbrev pub replied : Query → Result Query × Server Db World
  replied q = (
    ok (answered_by user.role user.id q),
    record s {
      db =
          with_message (new_message row q.id user.id request.body)
            (changed_db q.id (answered_by user.role user.id) s.db);
    },
  )

  abbrev pub Replies : Type 0
  Replies =
      (q : Query) × (first (is_query k) s.db.queries ≡ some q)
      × (user.role ≡ student → q.student_id ≡ user.id)
      × (post_reply row k user request s ≡ replied q)

  pub post_reply_cases : Refused (post_reply row k user request s) s ⊎ Replies
  unfolding post_reply reply_query
  post_reply_cases = elim (Option-cases (first (is_query k) s.db.queries)) [
    | inl e ↦ inl (rw e ((http_exception 404 "Query not found", refl), refl))
    | inr (q, e) ↦ elim (Bool-cases (is_student user.role && not (q.student_id == user.id))) [
      | inl foreign ↦ inl (rw (e, foreign) ((http_exception 403 "Forbidden", refl), refl))
      | inr own ↦ inr (q, e, λ r. ground arith, rw (e, own))
    ]
  ]

-- `patch_query_status`: a coordinator closes a query that nobody else has taken
module _ (k : ℕ) (user : CurrentUser) (request : QueryStatusUpdate) (s : Server Db World) where
  abbrev pub restated : Query → Result Query × Server Db World
  restated q =
      let f = with_query_status (query_status_value request.status) in
      (ok (f q), record s { db = changed_db q.id f s.db })

  abbrev pub Restates : Type 0
  Restates =
      (q : Query) × (user.role ≡ coordinator)
      × (first (is_query k) s.db.queries ≡ some q)
      × (handled_by user.id q ≡ true)
      × (patch_query_status k user request s ≡ restated q)

  free_case : user.role ≡ coordinator → Refused (patch_query_status k user request s) s ⊎ Restates
  unfolding patch_query_status update_query_status
  free_case r = elim (Option-cases (first (is_query k) s.db.queries)) [
    | inl e ↦ inl (rw (r, e) ((http_exception 404 "Query not found", refl), refl))
    | inr (q, e) ↦
        elim (Bool-cases
          (not (is_null q.coordinator_id) && not (is_key user.id q.coordinator_id))) [
            | inl taken ↦ inl (rw (r, e, taken) ((http_exception 403 "Forbidden", refl), refl))
            | inr free ↦ inr (q, r, e, ground arith, rw (r, e, free))
          ]
  ]

  pub patch_query_status_cases : Refused (patch_query_status k user request s) s ⊎ Restates
  unfolding patch_query_status
  patch_query_status_cases = role_case user.role refl
    where
      role_case :
          (r : UserRole)
          → user.role ≡ r
          → Refused (patch_query_status k user request s) s ⊎ Restates
      role_case coordinator r = free_case r
      role_case student r = inl (rw r ((http_exception 403 "Coordinator only", refl), refl))

-- `read_notification`: only its receiver reads a notification
module _ (now k : ℕ) (user : CurrentUser) (s : Server Db World) where
  abbrev pub read_db : Notification → Db
  read_db note = record s.db {
    notifications = update_where (is_notification note.id) (read_since now) s.db.notifications;
  }

  abbrev pub Reads : Type 0
  Reads =
      (note : Notification) × (first (own_notification k user.id) s.db.notifications ≡ some note)
      × (read_notification now k user s
          ≡ (ok (read_since now note), record s { db = read_db note }))

  pub read_notification_cases : Refused (read_notification now k user s) s ⊎ Reads
  unfolding read_notification mark_read
  read_notification_cases =
      elim (Option-cases (first (own_notification k user.id) s.db.notifications)) [
        | inl e ↦ inl (rw e ((http_exception 404 "Not found", refl), refl))
        | inr (note, e) ↦ inr (note, e, rw e)
      ]
