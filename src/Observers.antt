-- ===== src/Observers.antt =====
-- domain/observers/observers.js: whom an event reaches, by socket and by mail, and what is logged.
-- What an observer sends is a value here; the clients that carry it are not in the model.
pub mod Audience
pub mod Hotspot
pub mod Timer
mod Examples
use Prim.Native.String.{◌++◌ as ◌+++◌}
use campusops.Common.{
  not, String, Bool, true, false, ◌||◌, Option, none, some, List, [], ◌∷◌, ◌++◌, map, find,
  or_default, any, str_eq, if◌then◌else◌,
}
use campusops.Common.Text.{Text}
use campusops.User.{is_truthy, Room, user_room, role_room, dept_room, admin}
use campusops.Sla.{Priority}
use campusops.Incident.{Score, Rating, Incident}
use campusops.Incident.Names.{get_name}

-- The staff object or user of a payload, as far as the observers read it.
pub record Contact : Type 0 where
  pub id : Option String
  pub name : Option String
  pub email : Option String
  pub pref_email : Option Bool

pub record Payload : Type 0 where
  pub incident : Option Incident
  pub staff : Option Contact
  pub rating : Option Rating

abbrev pub realtime_event_map : List (String × String)
realtime_event_map =
    ("INCIDENT_CREATED", "incident_created")
    ∷ ("INCIDENT_ASSIGNED", "incident_assigned")
    ∷ ("INCIDENT_RESOLVED", "incident_updated")
    ∷ ("INCIDENT_ESCALATED", "incident_escalated")
    ∷ ("INCIDENT_REOPENED_BY_FEEDBACK", "incident_reopened")
    ∷ ("INCIDENT_REASSIGNED", "incident_updated")
    ∷ ("STAFF_UNDER_REVIEW", "staff_under_review")
    ∷ ("FEEDBACK_RECEIVED", "feedback_received")
    ∷ ("HOTSPOT_DETECTED", "hotspot_detected")
    ∷ []

abbrev second_of : Option (String × String) → Option String
second_of none = none
second_of (some (k, v)) = some v

-- `REALTIME_EVENT_MAP[eventType]`, for the own keys of the map
unfoldable pub socket_event : String → Option String
socket_event type = second_of (find (λ (k, v). str_eq type k) realtime_event_map)

-- `_buildPayload(eventType, payload)`: a field is absent where its object is.
pub record Update : Type 0 where
  pub event_type : String
  pub incident_id : Option String
  pub incident_number : Option String
  pub status : Option Text
  pub priority : Option Priority
  pub staff_id : Option String
  pub staff_name : Option String
  pub rating : Option Score

-- `o?.field`
abbrev pub chain {ℓ} : {A B : Type ℓ} → Option A → (A → Option B) → Option B
chain none f = none
chain (some a) f = f a

unfoldable pub build_payload : String → Payload → Update
build_payload type p = record {
  event_type = type;
  incident_id = chain p.incident (λ i. i.id);
  incident_number = chain p.incident (λ i. i.incident_number);
  status = chain p.incident (λ i. some (get_name i.state));
  priority = chain p.incident (λ i. some i.priority);
  staff_id = chain p.staff (λ s. s.id);
  staff_name = chain p.staff (λ s. s.name);
  rating = chain p.rating (λ r. some r.score);
}

-- `if (key) io.to(…)`: the room of a key that is there.
unfoldable pub room_of : (String → Room) → Option String → List Room
room_of f none = []
room_of f (some k) = if str_eq k "" then [] else f k ∷ []

-- The rooms that the cases of `RealTimeNotifier.handle` emit to, in order.
unfoldable pub rooms_of : String → Payload → List Room
unfolding room_of
rooms_of type p =
    if str_eq type "INCIDENT_CREATED"
    then room_of dept_room (chain p.incident (λ i. some i.department_id))
    else if str_eq type "INCIDENT_ASSIGNED"
    then room_of user_room (chain p.staff (λ s. s.id))
    else if str_eq type "INCIDENT_RESOLVED"
        || str_eq type "INCIDENT_REOPENED_BY_FEEDBACK"
        || str_eq type "INCIDENT_REASSIGNED"
    then room_of user_room (chain p.incident (λ i. some i.creator_id))
      ++ room_of user_room (chain p.incident (λ i. i.assigned_to_id))
    else role_room admin ∷ []

pub record Emission : Type 0 where
  pub room : Room
  pub socket_event : String
  pub content : Update

emit_to : String → Payload → Option String → List Emission
unfolding rooms_of build_payload
emit_to type p none = []
emit_to type p (some e) =
    map (λ r. record { room = r; socket_event = e; content = build_payload type p })
      (rooms_of type p)

-- `RealTimeNotifier.handle(eventType, payload)`
unfoldable pub notify_sockets : String → Payload → List Emission
unfolding emit_to
notify_sockets type p = emit_to type p (socket_event type)

abbrev pub email_events : List String
email_events =
    "INCIDENT_ASSIGNED" ∷ "INCIDENT_RESOLVED" ∷ "INCIDENT_ESCALATED"
    ∷ "INCIDENT_REOPENED_BY_FEEDBACK" ∷ "STAFF_UNDER_REVIEW" ∷ []

-- `_getRecipient(eventType, payload)`
unfoldable pub get_recipient : String → Payload → Option Contact
get_recipient type p = if str_eq type "INCIDENT_ASSIGNED" then p.staff else none

-- `recipient.prefEmail === false`
abbrev pub opted_out : Contact → Bool
opted_out c = not (or_default c.pref_email true)

abbrev pub address_of : Contact → Option String
address_of c = if is_truthy c.email then (if opted_out c then none else c.email) else none

-- `EmailNotifier.handle(eventType, payload)`: the address that a mail is sent to, if one is.
unfoldable pub email_to : String → Payload → Option String
unfolding get_recipient
email_to type p =
    if not (any (str_eq type) email_events) then none else chain (get_recipient type p) address_of

-- The address that `FeedbackRequestSender` makes up.
abbrev pub placeholder : String → String
placeholder creator_id = "user-" +++ (creator_id +++ "@placeholder")

-- `FeedbackRequestSender.handle`: the room of the request, and the address of the mail.
unfoldable pub feedback_request : String → Payload → Bool → Option (Room × Option String)
feedback_request type p has_mailer =
    if not (str_eq type "INCIDENT_RESOLVED")
    then none
    else chain p.incident (λ i.
      if str_eq i.creator_id ""
      then none
      else some
          (user_room i.creator_id, if has_mailer then some (placeholder i.creator_id) else none))

pub record AuditEntry : Type 0 where
  pub command_type : String
  pub actor_id : String
  pub incident_id : Option String
  pub incident_number : Option String
  pub staff_id : Option String
  pub rating : Option Score

-- `AuditLogger.handle(eventType, payload)`
unfoldable pub audit_entry : String → Payload → AuditEntry
audit_entry type p = record {
  command_type = type;
  actor_id =
      or_default (chain p.staff (λ s. s.id))
        (or_default (chain p.incident (λ i. some i.creator_id)) "system");
  incident_id = chain p.incident (λ i. i.id);
  incident_number = chain p.incident (λ i. i.incident_number);
  staff_id = chain p.staff (λ s. s.id);
  rating = chain p.rating (λ r. some r.score);
}
