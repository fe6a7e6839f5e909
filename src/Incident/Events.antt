-- ===== src/Incident/Events.antt =====
-- The events that the actions of an incident publish.
use campusops.Common.{◌≡◌, Option, none, some, List, [], ◌∷◌, ◌++◌, arith, leb, if◌then◌else◌}
use mathlib.Core.List.{append_assoc, append-nil}
use campusops.Incident.{
  IncidentState, reopened_state, StaffRef, Event, incident_resolved, incident_assigned,
  incident_reassigned, incident_escalated, incident_reopened_by_feedback, feedback_received,
  staff_under_review, World,
}
use campusops.Incident.States.{is_poor}
use campusops.Incident.Calls.{
  Call, assign_call, start_call, resolve_call, escalate_call, reopen_call, feedback_call, perform,
  succeeds, after, outcome,
}

abbrev assignment_event : IncidentState → StaffRef → Event
assignment_event reopened_state r = incident_reassigned r
assignment_event _ r = incident_assigned r

abbrev review_events : Option StaffRef → World → List Event
review_events none w = []
review_events (some r) w = if leb 2 (w.staff r).penalty_count then staff_under_review r ∷ [] else []

-- What an accepted call announces.
abbrev pub events_of : Call → World → List Event
events_of (assign_call now r) w = assignment_event w.incident.state r ∷ []
events_of start_call w = []
events_of (resolve_call now n p) w = incident_resolved ∷ []
events_of (escalate_call now reason) w = incident_escalated reason ∷ []
events_of (reopen_call reason) w = []
events_of (feedback_call now rating) w =
    if is_poor rating.score
    then review_events w.incident.assigned_to w ++ incident_reopened_by_feedback rating ∷ []
    else feedback_received rating ∷ []

abbrev pub announced : Call → World → List Event
announced c w = if succeeds (outcome c w) then events_of c w else []

-- An accepted call appends its events to `publishedEvents`, and tells an attached publisher the
-- same ones in the same order. A call that throws announces nothing, and without a publisher nobody
-- is told.
pub perform-events :
    (c : Call) (w : World)
    → ((after c w).incident.published_events ≡ w.incident.published_events ++ announced c w)
      × ((after c w).outbox ≡ w.outbox ++ (if w.incident.publisher then announced c w else []))
unfolding perform
perform-events (assign_call now r) w = grind (arith, append-nil)
perform-events start_call w =
    ground (arith, append-nil w.incident.published_events, append-nil w.outbox)
perform-events (resolve_call now n p) w = grind (arith, append-nil)
perform-events (escalate_call now reason) w = grind (arith, append-nil)
perform-events (reopen_call reason) w =
    ground (arith, append-nil w.incident.published_events, append-nil w.outbox)
perform-events (feedback_call now rating) w = grind (arith, append-nil, append_assoc)
