-- ===== src/Communications/Consumer.antt =====
-- `handle_domain_event` of communications_service.py and `run_consumer` of main.py: events from the
-- exchange become notifications.
use campus_hr_b.Table.{filter}
use campus_hr_b.Prelude.{
  ℕ, suc, is_some, String, Option, none, some, List, [], ◌∷◌, ◌++◌, if◌then◌else◌,
}
use campus_hr_b.Json.{Json, Dict, bool, text, get, truthy}
use campus_hr_b.Prelude.{true, false}
use campus_hr_b.Common.Uuid.{of_text}
use campus_hr_b.Events.{
  DomainEvent, EventType, application_submitted, application_shortlisted, application_rejected,
  query_responded, drive_created, drive_updated, event_type_value, register, handler_of,
}
use campus_hr_b.Session.{
  value_error, type_error, pure, raise, or_raise, ◌>>=◌, ◌>>◌, modify, commit, with_db,
}
use campus_hr_b.Communications.Model.{NotificationDeliveryLog, Stamp, Handler, Route}
use campus_hr_b.Communications.Service.{create_notification}

abbrev pub or_default : Option Json → Json → Json
or_default none d = d
or_default (some j) d = j

-- the dict `titles`: a title and a body for the events that are told
unfoldable pub titles : EventType → Dict → Option (String × Json)
titles application_submitted payload =
    some ("Application Submitted", text "Your application was submitted successfully.")
titles application_shortlisted payload = some ("Shortlisted", text "You have been shortlisted.")
titles application_rejected payload =
    some ("Application Update", text "Your application status was updated to rejected.")
titles query_responded payload =
    some ("Query Response", or_default (get "body" payload) (text "You received a reply."))
titles _ payload = none

-- `UUID(user_id)`: of a text that is no UUID it is a ValueError, and of anything else no value
unfoldable pub user_of : Json → Handler ℕ
user_of (text s) = or_raise (of_text s) (value_error "badly formed hexadecimal UUID string")
user_of _ = raise type_error

-- a value for the column `body`, which is of text. A truth value is taken as its text; how
-- PostgreSQL writes a number or an array there is not modelled, and both count as refused.
unfoldable pub body_of : Json → Handler String
body_of (text s) = pure s
body_of (bool true) = pure "true"
body_of (bool false) = pure "false"
body_of _ = raise type_error

unfoldable pub add_delivery_log : NotificationDeliveryLog → Handler Unit
add_delivery_log log = modify λ db. record db { delivery_logs = db.delivery_logs ++ log ∷ [] }

-- `log_id` is the uuid4 of the delivery log
unfoldable pub notify : Stamp → ℕ → EventType → Json → Option (String × Json) → Handler Unit
unfolding user_of body_of add_delivery_log
notify row log_id event_type user_id none = pure tt
notify row log_id event_type user_id (some (title, body)) = do
  user ← user_of user_id
  body_text ← body_of body
  note ← create_notification row user (event_type_value event_type) title body_text
  add_delivery_log
      (record { id = log_id; notification_id = note.id; channel = "email"; status = "pending" })
  commit

-- the part of `handle_domain_event` after `payload.get("student_id")`
unfoldable pub handle_student : Stamp → ℕ → DomainEvent → Option Json → Handler Unit
handle_student row log_id event none = pure tt
handle_student row log_id event (some user_id) =
    if truthy user_id
    then notify row log_id event.event_type user_id (titles event.event_type event.payload)
    else pure tt

unfoldable pub handle_domain_event : Stamp → ℕ → DomainEvent → Route Unit
unfolding handle_student
handle_domain_event row log_id event =
    with_db (handle_student row log_id event (get "student_id" event.payload))

abbrev pub EventHandler : Type 0
EventHandler = Stamp → ℕ → DomainEvent → Route Unit

-- the loop of `run_consumer` over the event types
unfoldable pub register_all :
    List EventType
    → EventHandler
    → List (EventType × EventHandler)
    → List (EventType × EventHandler)
unfolding register
register_all [] handler handlers = handlers
register_all (e ∷ es) handler handlers = register_all es handler (register e handler handlers)

unfoldable pub consumer : List (EventType × EventHandler)
unfolding register_all
consumer =
    register_all
      (application_submitted ∷ application_shortlisted ∷ application_rejected ∷ query_responded
        ∷ drive_created ∷ drive_updated ∷ [])
      handle_domain_event []

-- `if handler: await handler(event)`
unfoldable pub dispatch : Option EventHandler → EventHandler
dispatch none row log_id event = pure tt
dispatch (some handler) row log_id event = handler row log_id event

-- `EventConsumer.start` on one message: the queue is bound to the types that have a handler
unfoldable pub deliver : List (EventType × EventHandler) → EventHandler
unfolding dispatch
deliver handlers row log_id event = dispatch (handler_of event.event_type handlers) row log_id event

-- what the exchange routes to the queue, which is bound to the types in the dict of handlers: all
-- the messages, for a queue that was bound before the first of them
unfoldable pub queued : List (EventType × EventHandler) → List DomainEvent → List DomainEvent
queued handlers events = filter (λ event. is_some (handler_of event.event_type handlers)) events

-- the loop of `EventConsumer.start` over the messages of the queue. Message `i` has the stamp `rows
-- i` and the log's key `log_ids i`; what a handler raises leaves the loop.
unfoldable pub consume :
    List (EventType × EventHandler) → (ℕ → Stamp) → (ℕ → ℕ) → ℕ → List DomainEvent → Route Unit
unfolding deliver
consume handlers rows log_ids i [] = pure tt
consume handlers rows log_ids i (event ∷ events) =
    let rest = consume handlers rows log_ids (suc i) events in
    deliver handlers (rows i) (log_ids i) event >> rest
