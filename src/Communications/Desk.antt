-- ===== src/Communications/Desk.antt =====
-- Queries as students and coordinators see them.
use campus_hr_b.Prelude.{
  ℕ, ◌≡◌, ◌≢◌, refl, inl, inr, Bool, true, false, some, List, [], ◌∷◌, ◌++◌, arith, ◌==◌, ◌&&◌,
  str_eq, if◌then◌else◌, sym, ap, ◌∙◌,
}
use campus_hr_b.Common.Enums.{CurrentUser, UserRole, student, coordinator, is_student}
use campus_hr_b.Session.{Server, ok}
use campus_hr_b.Table.{first, order_by_desc}
use campus_hr_b.Table.Count.{count, found_passes}
use campus_hr_b.Table.Rows.{first-update_where_self, first-update_where_other}
use campus_hr_b.Table.Order.{
  IsNewestFirst, order_by_desc-IsNewestFirst, count-order_by_desc, count-filter,
}
use campus_hr_b.Communications.Responses.{
  query_response, message_response, messages_of, count-messages_of, QueryMessageResponse,
}
use campus_hr_b.Communications.Model.{
  Query, QueryMessage, Db, World, QueryReply, Stamp, is_query, asked_by, handled_by,
}
use campus_hr_b.Communications.Service.{list_queries, queries_for, answered_by, new_message}
use campus_hr_b.Communications.Api.{get_queries, post_reply}
use campus_hr_b.Communications.Cases.{post_reply_cases}

-- whose desk a query lies on: a student's own, and a coordinator's own and the unassigned ones
abbrev pub on_desk : CurrentUser → Query → Bool
on_desk user q = if is_student user.role then asked_by user.id q else handled_by user.id q

module _ (user : CurrentUser) (s : Server Db World) where
  count-queries_for :
      (role : UserRole) (p : Query → Bool) (qs : List Query)
      → count p (queries_for user.id role qs)
        ≡ count
            (λ q. (if is_student role then asked_by user.id q else handled_by user.id q) && p q)
            qs
  unfolding queries_for
  count-queries_for student p qs = count-filter (asked_by user.id) p qs
  count-queries_for coordinator p qs = count-filter (handled_by user.id) p qs

  -- The list of queries is answered without a change, newest first. It holds each query on the
  -- user's desk as often as the table does, and no other: a student's own, and for a coordinator
  -- the assigned and the unassigned ones.
  pub get_queries_visible :
      (rows : List Query) × (get_queries user s ≡ (ok rows, s))
      × IsNewestFirst (λ q. q.created_at) rows
      × ((p : Query → Bool) → count p rows ≡ count (λ q. on_desk user q && p q) s.db.queries)
  unfolding get_queries list_queries
  get_queries_visible =
      let visible = queries_for user.id user.role s.db.queries in
      (
        order_by_desc (λ q. q.created_at) visible,
        refl,
        order_by_desc-IsNewestFirst (λ q. q.created_at) visible,
        λ p.
            count-order_by_desc (λ q. q.created_at) p visible
            ∙ count-queries_for user.role p s.db.queries,
      )

other_query : (k j i : ℕ) → j ≢ k → (i == k) ≡ true → (i == j) ≡ false
other_query k j i ne e = ground arith

-- what a reply makes of a query
abbrev pub after_reply : UserRole → ℕ → Query → Query
after_reply student u q = q
after_reply coordinator u q = record q {
  coordinator_id = some u;
  status = if str_eq q.status "Open" then "In Progress" else q.status;
}

answered_by-eq : (role : UserRole) (u : ℕ) (q : Query) → answered_by role u q ≡ after_reply role u q
unfolding answered_by
answered_by-eq student u q = refl
answered_by-eq coordinator u q = refl

after_reply_id : (role : UserRole) (u : ℕ) (q : Query) → (after_reply role u q).id ≡ q.id
after_reply_id student u q = refl
after_reply_id coordinator u q = refl

module _ (row : Stamp) (k : ℕ) (user : CurrentUser) (request : QueryReply)
    (s : Server Db World) where
  -- A reply that is answered with success goes to a query that exists, and a student's to an own
  -- one. The query then is what it was after a student's reply; after a coordinator's it is
  -- assigned to that coordinator, and in progress if it was open. The messages gain one, the
  -- sender's with the text of the request, and the answer shows it once more than the query's
  -- messages before, each of those as often, in whatever order the database has them. No other
  -- query has changed.
  pub post_reply_success :
      (q' : Query) (t : Server Db World)
      → post_reply row k user request s ≡ (ok q', t)
      → (q : Query) × (first (is_query k) s.db.queries ≡ some q)
        × (user.role ≡ student → q.student_id ≡ user.id)
        × (q' ≡ after_reply user.role user.id q)
        × (first (is_query k) t.db.queries ≡ some q')
        × (t.db.messages
            ≡ s.db.messages
              ++ record {
                id = row.id;
                query_id = k;
                sender_id = user.id;
                body = request.body;
                created_at = row.now;
              }
                ∷ [])
        × ((select : List QueryMessage → List QueryMessage)
            → ((p : QueryMessage → Bool) (xs : List QueryMessage)
                → count p (select xs) ≡ count p xs)
            → (p : QueryMessageResponse → Bool)
            → count p (query_response select t.db q').messages
              ≡ count p (
                  (query_response select s.db q).messages
                  ++ record {
                    id = row.id;
                    sender_id = user.id;
                    body = request.body;
                    created_at = row.now;
                  }
                    ∷ []))
        × ((j : ℕ) → j ≢ k → first (is_query j) t.db.queries ≡ first (is_query j) s.db.queries)
  unfolding query_response new_message
  post_reply_success q' t h = elim (post_reply_cases row k user request s) [
    | inl refused ↦ cc refused.0.1
    | inr (q, e, own, done) ↦
        let h' = sym done ∙ h in
        let same : answered_by user.role user.id q ≡ q' = cc in
        let key : q.id ≡ k = ground (arith, found_passes (is_query k) s.db.queries e) in
        let rows = ap (λ p. p.1.db.queries) (sym h') in
        let message = new_message row k user.id request.body in
        let messages : t.db.messages ≡ s.db.messages ++ message ∷ [] =
          ap (λ p. p.1.db.messages) (sym h')
          ∙ ap (λ i. s.db.messages ++ new_message row i user.id request.body ∷ []) key in
        let keeps = λ (a : Query).
          ap (λ x. x.id) (answered_by-eq user.role user.id a)
          ∙ after_reply_id user.role user.id a in
        (
          q,
          e,
          own,
          sym same ∙ answered_by-eq user.role user.id q,
          rw rows (
              rw key (
                first-update_where_self (is_query k) (answered_by user.role user.id) s.db.queries
                  (λ a. rw (keeps a)) e
                ∙ ap some same)),
          messages,
          λ select law p.
              ap (λ i. count p (messages_of select i t.db.messages))
                (ap (λ x. x.id) (sym same) ∙ keeps q ∙ key)
              ∙ ap (λ ms. count p (messages_of select k ms)) messages
              ∙ count-messages_of select law k s.db.messages message refl p
              ∙ ap
                  (λ i.
                    count p (messages_of select i s.db.messages ++ message_response message ∷ []))
                  (sym key),
          λ j ne. rw rows (
              rw key (
                first-update_where_other (is_query j) (is_query k) (answered_by user.role user.id)
                  s.db.queries
                  (λ a hit.
                    (other_query k j a.id ne hit, rw (keeps a) (other_query k j a.id ne hit))))),
        )
  ]
