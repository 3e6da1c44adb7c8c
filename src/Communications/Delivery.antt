-- ===== src/Communications/Delivery.antt =====
-- What an event from the exchange does to communications_db.
use campus_hr_b.Prelude.{
  ℕ, String, ◌≡◌, refl, ◌⊎◌, inl, inr, Bool, true, false, Option, none, some, [], ◌∷◌, ◌++◌, ◌<◌,
  ◌^◌, ap, ◌∙◌, str_eq, eq_iff, Bool-cases, Option-cases, if◌then◌else◌,
}
use campus_hr_b.Json.{bool, Json, Dict, text, get, truthy}
use campus_hr_b.Common.Uuid.{of_text, to_text, read}
use campus_hr_b.Common.Uuid.RoundTrip.{of_text-to_text}
use campus_hr_b.Events.{
  DomainEvent, EventType, application_submitted, application_withdrawn, query_created,
  registration_deadline_reached, event_type_value, handler_of,
}
use campus_hr_b.Session.{Server, ok, with_db}
use campus_hr_b.Communications.Model.{Notification, NotificationDeliveryLog, Db, World, Stamp}
use campus_hr_b.Communications.Service.{create_notification, new_notification}
use campus_hr_b.Communications.Consumer.{titles, notify, handle_domain_event, consumer, deliver}

abbrev pub pending_log : ℕ → ℕ → NotificationDeliveryLog
pending_log log_id note_id = record {
  id = log_id;
  notification_id = note_id;
  channel = "email";
  status = "pending";
}

abbrev pub notified_db : Notification → ℕ → Db → Db
notified_db note log_id db = record db {
  notifications = db.notifications ++ note ∷ [];
  delivery_logs = db.delivery_logs ++ pending_log log_id note.id ∷ [];
}

-- the event types that the queue is bound to
abbrev pub bound : EventType → Bool
bound application_withdrawn = false
bound query_created = false
bound registration_deadline_reached = false
bound _ = true

pub handler_of-consumer :
    (e : EventType) → handler_of e consumer ≡ (if bound e then some handle_domain_event else none)
unfolding handler_of consumer
handler_of-consumer application_submitted = refl
handler_of-consumer _ = refl

module _ (row : Stamp) (log_id : ℕ) (s : Server Db World) where
  abbrev noted : EventType → ℕ → String → String → Server Db World
  noted event_type user title body = record s {
    db =
        notified_db (new_notification row user (event_type_value event_type) title body) log_id
          s.db;
  }

  notify_cases :
      (event_type : EventType) (user_id : Json) (o : Option (String × Json))
      → ((with_db (notify row log_id event_type user_id o) s).1 ≡ s)
        ⊎ ((name : String) × (user : ℕ) × (title : String) × (body : String) × (user_id ≡ text name)
            × (of_text name ≡ some user)
            × ((value : Json) × (o ≡ some (title, value)))
            × (with_db (notify row log_id event_type user_id o) s
                ≡ (ok tt, noted event_type user title body)))
  unfolding notify create_notification
  notify_cases event_type user_id none = inl refl
  notify_cases event_type (text name) (some (title, text body)) =
      elim (Option-cases (of_text name)) [
        | inl e ↦ inl (rw e)
        | inr (user, e) ↦ inr (name, user, title, body, refl, e, (text body, refl), rw e)
      ]
  notify_cases event_type (text name) (some (title, bool true)) =
      elim (Option-cases (of_text name)) [
        | inl e ↦ inl (rw e)
        | inr (user, e) ↦ inr (name, user, title, "true", refl, e, (bool true, refl), rw e)
      ]
  notify_cases event_type (text name) (some (title, bool false)) =
      elim (Option-cases (of_text name)) [
        | inl e ↦ inl (rw e)
        | inr (user, e) ↦ inr (name, user, title, "false", refl, e, (bool false, refl), rw e)
      ]
  notify_cases event_type (text name) (some (title, _)) = elim (Option-cases (of_text name)) [
    | inl e ↦ inl (rw e)
    | inr (user, e) ↦ inl (rw e)
  ]
  notify_cases event_type _ (some (title, _)) = inl refl

  -- the text of the event names the student, and the table of titles has its type
  abbrev pub Notifies : DomainEvent → Type 0
  Notifies event =
      (name : String) × (user : ℕ) × (title : String) × (body : String) × (get "student_id"
          event.payload
        ≡ some (text name))
      × (of_text name ≡ some user)
      × ((value : Json) × (titles event.event_type event.payload ≡ some (title, value)))
      × (deliver consumer row log_id event s ≡ (ok tt, noted event.event_type user title body))

  handle_cases :
      (event : DomainEvent) (o : Option Json)
      → get "student_id" event.payload ≡ o
      → bound event.event_type ≡ true
      → ((deliver consumer row log_id event s).1 ≡ s) ⊎ Notifies event
  unfolding deliver handle_domain_event
  handle_cases event none e b = inl (rw (handler_of-consumer event.event_type, b, e))
  handle_cases event (some j) e b = elim (Bool-cases (truthy j)) [
    | inl full ↦ elim (notify_cases event.event_type j (titles event.event_type event.payload)) [
      | inl same ↦ inl (rw (handler_of-consumer event.event_type, b, e, full) same)
      | inr (name, user, title, body, en, eu, et, done) ↦ inr (
        name,
        user,
        title,
        body,
        e ∙ ap some en,
        eu,
        et,
        rw (handler_of-consumer event.event_type, b, e, full) done,
      )
    ]
    | inr empty ↦ inl (rw (handler_of-consumer event.event_type, b, e, empty))
  ]

  -- The event changes nothing, or the student whom it names has one more notification, with one
  -- pending delivery.
  pub deliver_cases :
      (event : DomainEvent) → ((deliver consumer row log_id event s).1 ≡ s) ⊎ Notifies event
  unfolding deliver
  deliver_cases event = elim (Bool-cases (bound event.event_type)) [
    | inl b ↦ handle_cases event (get "student_id" event.payload) refl b
    | inr b ↦ inl (rw (handler_of-consumer event.event_type, b))
  ]

pub bound_of_titles :
    (e : EventType) (payload : Dict) {t : String × Json}
    → titles e payload ≡ some t
    → bound e ≡ true
unfolding titles
bound_of_titles application_submitted payload h = refl
bound_of_titles application_withdrawn payload h = cc
bound_of_titles query_created payload h = cc
bound_of_titles registration_deadline_reached payload h = cc
bound_of_titles _ payload h = refl

of_text-empty : of_text "" ≡ none
unfolding of_text read
of_text-empty = refl

-- the text of a UUID is not empty, since it can be read back
to_text-ne-empty : (u : ℕ) → u < 2 ^ 128 → str_eq (to_text u) "" ≡ false
to_text-ne-empty u small = elim (Bool-cases (str_eq (to_text u) "")) [
  | inl e ↦ cc (of_text-to_text u small, ap of_text ((eq_iff (to_text u) "").0 e), of_text-empty)
  | inr e ↦ e
]

truthy-to_text : (u : ℕ) → u < 2 ^ 128 → truthy (text (to_text u)) ≡ true
unfolding truthy
truthy-to_text u small = rw (to_text-ne-empty u small)

-- An event that names a student by the text of a UUID, and whose type the table of titles has,
-- gives that student a notification with that title and body and one pending delivery, and nothing
-- else changes.
pub deliver_student :
    (row : Stamp) (log_id : ℕ) (event : DomainEvent) (user : ℕ) (title body : String)
    (s : Server Db World)
    → user < 2 ^ 128
    → get "student_id" event.payload ≡ some (text (to_text user))
    → titles event.event_type event.payload ≡ some (title, text body)
    → deliver consumer row log_id event s ≡ (
      ok tt,
      record s {
        db =
            notified_db
              (new_notification row user (event_type_value event.event_type) title body)
              log_id
              s.db;
      },
    )
unfolding deliver handle_domain_event notify create_notification
deliver_student row log_id event user title body s small named titled = rw (
  handler_of-consumer event.event_type,
  bound_of_titles event.event_type event.payload titled,
  named,
  truthy-to_text user small,
  titled,
  of_text-to_text user small,
)
