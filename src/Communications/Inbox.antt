-- ===== src/Communications/Inbox.antt =====
-- Notifications as their receivers see them.
use campus_hr_b.Prelude.{
  ℕ, ◌≡◌, ◌≢◌, refl, inl, inr, Bool, true, false, some, List, arith, ◌==◌, ◌&&◌, sym, ap, ◌∙◌,
}
use campus_hr_b.Common.Enums.{CurrentUser}
use campus_hr_b.Session.{Server, ok}
use campus_hr_b.Table.{first, filter, order_by_desc}
use campus_hr_b.Table.Count.{count, found_passes}
use campus_hr_b.Table.Rows.{first-update_where_other, first-update_where_found}
use campus_hr_b.Table.Order.{
  IsNewestFirst, order_by_desc-IsNewestFirst, count-order_by_desc, count-filter,
}
use campus_hr_b.Communications.Model.{
  Notification, Db, World, is_notification, sent_to, own_notification,
}
use campus_hr_b.Communications.Service.{list_notifications, read_since}
use campus_hr_b.Communications.Api.{get_notifications, read_notification}
use campus_hr_b.Communications.Cases.{read_notification_cases}

other_note : (k j i : ℕ) → j ≢ k → (i == k) ≡ true → (i == j) ≡ false
other_note k j i ne e = ground arith

module _ (user : CurrentUser) (s : Server Db World) where
  -- The list of notifications is answered without a change, newest first, and holds each of the
  -- user's own notifications as often as the table does, and no other.
  pub get_notifications_own :
      (rows : List Notification) × (get_notifications user s ≡ (ok rows, s))
      × IsNewestFirst (λ n. n.created_at) rows
      × ((p : Notification → Bool)
          → count p rows ≡ count (λ n. sent_to user.id n && p n) s.db.notifications)
  unfolding get_notifications list_notifications
  get_notifications_own =
      let own = filter (sent_to user.id) s.db.notifications in
      (
        order_by_desc (λ n. n.created_at) own,
        refl,
        order_by_desc-IsNewestFirst (λ n. n.created_at) own,
        λ p.
            count-order_by_desc (λ n. n.created_at) p own
            ∙ count-filter (sent_to user.id) p s.db.notifications,
      )

  -- A notification that is marked read with success is there, sent to the one who asks. The answer
  -- is it with the time of reading and its other fields as they were, and the stored row is as
  -- answered; other notifications, queries, messages and delivery logs are as before.
  pub read_notification_success :
      (now k : ℕ) (note : Notification) (t : Server Db World)
      → read_notification now k user s ≡ (ok note, t)
      → (old : Notification) × (first (own_notification k user.id) s.db.notifications ≡ some old)
        × (note ≡ record old { read_at = some now })
        × (first (own_notification k user.id) t.db.notifications ≡ some note)
        × (note.id ≡ k)
        × (note.user_id ≡ user.id)
        × ((j : ℕ)
            → j ≢ k
            → first (is_notification j) t.db.notifications
              ≡ first (is_notification j) s.db.notifications)
        × (t.db ≡ record s.db { notifications = t.db.notifications })
  unfolding read_since
  read_notification_success now k note t h = elim (read_notification_cases now k user s) [
    | inl refused ↦ cc refused.0.1
    | inr (old, e, done) ↦
        let h' = sym done ∙ h in
        let same : read_since now old ≡ note = cc in
        let own = found_passes (own_notification k user.id) s.db.notifications e in
        let key : old.id ≡ k = ground arith in
        let db = ap (λ p. p.1.db) (sym h') in
        (
          old,
          e,
          sym same,
          rw db (
              rw key (
                first-update_where_found (own_notification k user.id) (is_notification k)
                  (read_since now) s.db.notifications (λ a. refl) e (ground (arith, key))
                ∙ ap some same)),
          ap (λ n. n.id) (sym same) ∙ key,
          ap (λ n. n.user_id) (sym same) ∙ ground arith,
          λ j ne. rw db (
              rw key (
                first-update_where_other (is_notification j) (is_notification k) (read_since now)
                  s.db.notifications
                  (λ a hit. (other_note k j a.id ne hit, other_note k j a.id ne hit)))),
          rw db,
        )
  ]
