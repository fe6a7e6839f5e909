-- ===== src/Publisher.antt =====
-- domain/observers/IncidentEventPublisher.js and wireObservers.js: who is told of which event.
-- A `handle` is async, so that what it throws is a rejection; handlers are read as run one after the
-- other, in the order of the set, which is the order in which they start.
pub mod Delivery
mod Examples
use campusops.Common.{
  ℕ, String, Bool, true, false, not, Option, none, some, List, [], ◌∷◌, filter, length, str_eq,
  if◌then◌else◌,
}
use campusops.Common.Exec.{Exec, Result, ok, err}
use campusops.Errors.{Thrown}

-- `_subscribers`: a map from the event type to a set, both in the order of insertion.
abbrev pub Subscribers : Type 0 → Type 0
Subscribers O = List (String × List O)

module _ {O : Type 0} (same : O → O → Bool) where
  -- `set.add(observer)`
  abbrev pub add : O → List O → List O
  add o [] = o ∷ []
  add o (p ∷ os) = let rest = add o os in if same o p then p ∷ os else p ∷ rest

  -- `set.delete(observer)`
  abbrev pub delete : O → List O → List O
  delete o = filter (λ p. not (same o p))

  unfoldable pub subscribe_one : String → O → Subscribers O → Subscribers O
  subscribe_one type o [] = (type, o ∷ []) ∷ []
  subscribe_one type o ((t, os) ∷ subs) =
      let rest = subscribe_one type o subs in
      if str_eq type t then (t, add o os) ∷ subs else (t, os) ∷ rest

  -- `subscribe(eventTypes, observer)`
  unfoldable pub subscribe : List String → O → Subscribers O → Subscribers O
  subscribe [] o subs = subs
  subscribe (type ∷ types) o subs = subscribe types o (subscribe_one type o subs)

  unfoldable pub unsubscribe : String → O → Subscribers O → Subscribers O
  unsubscribe type o [] = []
  unsubscribe type o ((t, os) ∷ subs) =
      let rest = unsubscribe type o subs in
      if str_eq type t then (t, delete o os) ∷ subs else (t, os) ∷ rest

module _ {O : Type 0} where
  -- `_subscribers.get(eventType) || new Set()`
  unfoldable pub handlers_of : String → Subscribers O → List O
  handlers_of type [] = []
  handlers_of type ((t, os) ∷ subs) =
      let rest = handlers_of type subs in if str_eq type t then os else rest

  -- `subscriberCount(eventType)`
  unfoldable pub subscriber_count : String → Subscribers O → ℕ
  unfolding handlers_of
  subscriber_count type subs = length (handlers_of type subs)

  -- The handlers of a set, and the failures that the publisher logs and does not rethrow.
  run_handlers :
      {S P : Type 0}
      → (O → String → P → Exec S Thrown (Unit {0}))
      → String
      → P
      → List O
      → S
      → List Thrown × S
  run_handlers handle type payload [] s = ([], s)
  run_handlers handle type payload (o ∷ os) s =
      let (result, t) = handle o type payload s in
      let (failures, u) = run_handlers handle type payload os t in
      (elim result [ ok a ↦ failures | err e ↦ e ∷ failures ], u)

  -- `publish(eventType, payload)`
  unfoldable pub publish :
      {S P : Type 0}
      → (O → String → P → Exec S Thrown (Unit {0}))
      → String
      → P
      → Subscribers O
      → S
      → List Thrown × S
  unfolding handlers_of run_handlers
  publish handle type payload subs s = run_handlers handle type payload (handlers_of type subs) s

pub data Observer : Type 0 where
  sla_timer hotspot rt_notifier email_notifier audit_logger cache_inval feedback_req : Observer

abbrev pub is_same : Observer → Observer → Bool
is_same sla_timer sla_timer = true
is_same hotspot hotspot = true
is_same rt_notifier rt_notifier = true
is_same email_notifier email_notifier = true
is_same audit_logger audit_logger = true
is_same cache_inval cache_inval = true
is_same feedback_req feedback_req = true
is_same _ _ = false

-- The `subscribe` calls of `wireObservers`, in order.
abbrev wiring : List (String × Observer)
wiring =
    ("INCIDENT_CREATED", sla_timer)
    ∷ ("INCIDENT_CREATED", rt_notifier)
    ∷ ("INCIDENT_CREATED", hotspot)
    ∷ ("INCIDENT_CREATED", audit_logger)
    ∷ ("INCIDENT_ASSIGNED", rt_notifier)
    ∷ ("INCIDENT_ASSIGNED", email_notifier)
    ∷ ("INCIDENT_ASSIGNED", audit_logger)
    ∷ ("INCIDENT_RESOLVED", sla_timer)
    ∷ ("INCIDENT_RESOLVED", rt_notifier)
    ∷ ("INCIDENT_RESOLVED", email_notifier)
    ∷ ("INCIDENT_RESOLVED", feedback_req)
    ∷ ("INCIDENT_RESOLVED", cache_inval)
    ∷ ("INCIDENT_RESOLVED", audit_logger)
    ∷ ("INCIDENT_ESCALATED", rt_notifier)
    ∷ ("INCIDENT_ESCALATED", email_notifier)
    ∷ ("INCIDENT_ESCALATED", audit_logger)
    ∷ ("INCIDENT_REOPENED_BY_FEEDBACK", rt_notifier)
    ∷ ("INCIDENT_REOPENED_BY_FEEDBACK", cache_inval)
    ∷ ("INCIDENT_REOPENED_BY_FEEDBACK", audit_logger)
    ∷ ("INCIDENT_REASSIGNED", rt_notifier)
    ∷ ("INCIDENT_REASSIGNED", audit_logger)
    ∷ ("STAFF_UNDER_REVIEW", rt_notifier)
    ∷ ("STAFF_UNDER_REVIEW", email_notifier)
    ∷ ("FEEDBACK_RECEIVED", audit_logger)
    ∷ []

subscribe_all : List (String × Observer) → Subscribers Observer → Subscribers Observer
unfolding subscribe_one subscribe
subscribe_all [] subs = subs
subscribe_all ((t, o) ∷ ws) subs = subscribe_all ws (subscribe is_same (t ∷ []) o subs)

unfoldable pub wire_observers : Subscribers Observer
unfolding subscribe_all
wire_observers = subscribe_all wiring []
