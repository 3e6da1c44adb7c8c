-- ===== src/Events.antt =====
-- shared/campushire-events: the events, the publisher and the consumer. The exchange holds what was
-- published, oldest first; a message carries its event as it is (`model_dump_json` and
-- `model_validate` are pydantic's).
use campus_hr_b.Prelude.{
  ℕ, String, Bool, true, Option, none, some, List, [], ◌∷◌, ◌++◌, str_eq, not, if◌then◌else◌,
}
use campus_hr_b.Json.{Dict}
use campus_hr_b.Session.{Exec, raise, runtime_error, pure}

pub data EventType : Type 0 where
  application_submitted application_withdrawn application_shortlisted : EventType
  application_rejected drive_created drive_updated query_created query_responded : EventType
  registration_deadline_reached : EventType

abbrev pub event_type_value : EventType → String
event_type_value application_submitted = "APPLICATION_SUBMITTED"
event_type_value application_withdrawn = "APPLICATION_WITHDRAWN"
event_type_value application_shortlisted = "APPLICATION_SHORTLISTED"
event_type_value application_rejected = "APPLICATION_REJECTED"
event_type_value drive_created = "DRIVE_CREATED"
event_type_value drive_updated = "DRIVE_UPDATED"
event_type_value query_created = "QUERY_CREATED"
event_type_value query_responded = "QUERY_RESPONDED"
event_type_value registration_deadline_reached = "REGISTRATION_DEADLINE_REACHED"

pub record DomainEvent : Type 0 where
  pub event_type : EventType
  pub payload : Dict
  pub actor_id : Option ℕ
  pub correlation_id : Option String

-- the publisher's channel is open or not, and the messages in the exchange
pub record Broker : Type 0 where
  pub connected : Bool
  pub sent : List DomainEvent

-- `EventPublisher.connect`
unfoldable pub connect : Exec Broker Unit
connect b = pure tt (record b { connected = true })

-- `EventPublisher.publish`
unfoldable pub publish : DomainEvent → Exec Broker Unit
publish event b =
    if not b.connected
    then raise (runtime_error "EventPublisher not connected") b
    else pure tt (record b { sent = b.sent ++ event ∷ [] })

-- the members of a `str` enumeration are compared by their values
abbrev pub event_type_eq : EventType → EventType → Bool
event_type_eq a b = str_eq (event_type_value a) (event_type_value b)

module _ {ℓ} {H : Type ℓ} where
  -- `EventConsumer.register`: a dict of handlers
  unfoldable pub register : EventType → H → List (EventType × H) → List (EventType × H)
  register e h [] = (e, h) ∷ []
  register e h ((f, g) ∷ handlers) =
      if event_type_eq f e then (f, h) ∷ handlers else (f, g) ∷ register e h handlers

  -- `self._handlers.get(event.event_type)`
  unfoldable pub handler_of : EventType → List (EventType × H) → Option H
  handler_of e [] = none
  handler_of e ((f, g) ∷ handlers) = if event_type_eq f e then some g else handler_of e handlers
