-- ===== src/Communications/Queue.antt =====
-- The consumer's loop over events that name students.
use campus_hr_b.Prelude.{
  ℕ, suc, ◌+◌, ◌^◌, ◌<◌, ◌≡◌, refl, ap, sym, ◌∙◌, inl, inr, String, Bool, true, false, Option, some,
  List, [], ◌∷◌, ◌==◌, str_eq, eq_iff, arith, Bool-cases,
}
use package.text.Mathlib.TextPositions.{eq_refl}
use native.Mathlib.Decide.{ℕ_discrete}
use campus_hr_b.Json.{Json, text, get}
use campus_hr_b.Common.Uuid.{to_text, of_text}
use campus_hr_b.Common.Uuid.RoundTrip.{of_text-to_text}
use campus_hr_b.Events.{DomainEvent, event_type_value}
use campus_hr_b.Session.{Server, ok}
use campus_hr_b.Table.{filter}
use campus_hr_b.Table.Count.{count, to_nat, count-append_one}
use campus_hr_b.Table.Order.{AllRows}
use campus_hr_b.Communications.Model.{Db, World, Stamp, Notification, sent_to}
use campus_hr_b.Communications.Service.{new_notification}
use campus_hr_b.Communications.Consumer.{titles, consumer, consume, queued}
use campus_hr_b.Communications.Delivery.{
  deliver_student, notified_db, handler_of-consumer, bound_of_titles,
}

-- an event that tells a student something
abbrev pub Tells : DomainEvent → Type 0
Tells event =
    (k : ℕ) × (title body : String) × (k < 2 ^ 128)
    × (get "student_id" event.payload ≡ some (text (to_text k)))
    × (titles event.event_type event.payload ≡ some (title, text body))

abbrev is_text : String → Option Json → Bool
is_text t (some (text s)) = str_eq s t
is_text t _ = false

-- the event names a student
abbrev pub names : ℕ → DomainEvent → Bool
names u event = is_text (to_text u) (get "student_id" event.payload)

to_text-inj : (k u : ℕ) → k < 2 ^ 128 → u < 2 ^ 128 → str_eq (to_text k) (to_text u) ≡ (k == u)
to_text-inj k u a b = elim (ℕ_discrete k u) [
  | yes e ↦ rw e (eq_refl (to_text u) ∙ sym (self u))
  | no ne ↦ elim (Bool-cases (str_eq (to_text k) (to_text u))) [
    | inr other ↦ rw other (ground arith)
    | inl same ↦ absurd (
        ne (
          some_of (
            sym (of_text-to_text k a)
            ∙ ap of_text ((eq_iff (to_text k) (to_text u)).0 same)
            ∙ of_text-to_text u b)))
  ]
]
  where
    some_of : {x y : ℕ} → some x ≡ some y → x ≡ y
    some_of q = cc q

    self : (x : ℕ) → (x == x) ≡ true
    self x = ground arith

-- An event that tells a student something is queued.
pub told_queued :
    (events : List DomainEvent) → AllRows Tells events → queued consumer events ≡ events
unfolding queued filter
told_queued [] all = refl
told_queued (event ∷ events) all =
    let (k, title, body, small, named, titled) = all.0 in
    rw (
      handler_of-consumer event.event_type,
      bound_of_titles event.event_type event.payload titled,
      told_queued events all.1,
    )

-- The loop ends with every message served: each student has one more notification for each event
-- that names the student.
abbrev pub Serves : List DomainEvent → Server Db World → Server Db World → Type 0
Serves events s t =
    (u : ℕ)
    → u < 2 ^ 128
    → count (sent_to u) t.db.notifications
      ≡ count (sent_to u) s.db.notifications + count (names u) events

names_note :
    (event : DomainEvent) (k u : ℕ) (note : Notification)
    → k < 2 ^ 128
    → u < 2 ^ 128
    → get "student_id" event.payload ≡ some (text (to_text k))
    → note.user_id ≡ k
    → sent_to u note ≡ names u event
names_note event k u note a b named own = rw named (rw own (sym (to_text-inj k u a b)))

pub consume_told :
    (rows : ℕ → Stamp) (log_ids : ℕ → ℕ) (i : ℕ) (events : List DomainEvent) (s : Server Db World)
    → AllRows Tells events
    → (t : Server Db World) × (consume consumer rows log_ids i events s ≡ (ok tt, t))
      × Serves events s t
unfolding consume count new_notification
consume_told rows log_ids i [] s all = (s, refl, λ u small. omega arith)
consume_told rows log_ids i (event ∷ events) s all =
    let (k, title, body, small, named, titled) = all.0 in
    let note = new_notification (rows i) k (event_type_value event.event_type) title body in
    let next : Server Db World = record s { db = notified_db note (log_ids i) s.db } in
    let (t, ended, served) = consume_told rows log_ids (suc i) events next all.1 in
    let delivered = deliver_student (rows i) (log_ids i) event k title body s small named titled in
    (
      t,
      rw delivered ended,
      λ u low. omega (
        arith,
        served u low,
        count-append_one (sent_to u) s.db.notifications note,
        ap to_nat (names_note event k u note small low named refl),
      ),
    )
