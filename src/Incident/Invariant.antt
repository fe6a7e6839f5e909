-- ===== src/Incident/Invariant.antt =====
-- What holds of an incident between two calls, whatever calls were made before.
use campusops.Common.{
  ◌≤◌, String, ◌≡◌, refl, Bool, true, false, Option, none, some, List, [], ◌∷◌, ◌++◌, length, arith,
  is_some,
}
use campusops.Common.Text.{Text}
use campusops.Incident.{
  IncidentState, open_state, in_progress_state, resolved_state, escalated_state, reopened_state,
  LogEntry, Feedback, Incident, World,
}
use campusops.Incident.States.{no_photo, is_poor}
use campusops.Incident.Calls.{
  Call, assign_call, start_call, resolve_call, escalate_call, reopen_call, feedback_call, perform,
  after, perform_all,
}

-- The status that the last entry of the log reports.
abbrev pub last_status : List LogEntry → Option String
last_status [] = none
last_status (e ∷ []) = some e.status
last_status (e ∷ f ∷ es) = last_status (f ∷ es)

pub last_status-append :
    (es : List LogEntry) (e : LogEntry) → last_status (es ++ e ∷ []) ≡ some e.status
last_status-append [] e = refl
last_status-append (f ∷ []) e = refl
last_status-append (f ∷ g ∷ es) e = last_status-append (g ∷ es) e

-- The status that a state writes to the log; an incident that is still open has written none.
abbrev pub logged_status : IncidentState → Option String
logged_status open_state = none
logged_status in_progress_state = some "IN_PROGRESS"
logged_status resolved_state = some "RESOLVED"
logged_status escalated_state = some "ESCALATED"
logged_status reopened_state = some "REOPENED"

abbrev LongEnough : Option Text → Type 0
LongEnough none = ⊥
LongEnough (some n) = 10 ≤ length n

abbrev EscalatedSla : Incident → Type 0
EscalatedSla i = elim i.sla [ none ↦ ⊥ | some p ↦ p.is_escalated ≡ true ]

abbrev PoorlyRated : Option Feedback → Type 0
PoorlyRated none = ⊥
PoorlyRated (some f) = is_poor f.score ≡ true

abbrev finished : IncidentState → Bool
finished resolved_state = true
finished reopened_state = true
finished _ = false

-- What each state promises of the incident's fields.
abbrev pub StateFields : IncidentState → Incident → Type 0
StateFields open_state i = Unit
StateFields in_progress_state i = is_some i.assigned_to_id ≡ true
StateFields resolved_state i =
    (no_photo i.resolution_photo ≡ false)
    × LongEnough i.resolution_note
    × (is_some i.resolved_at ≡ true)
StateFields escalated_state i = EscalatedSla i
StateFields reopened_state i =
    (no_photo i.resolution_photo ≡ false)
    × LongEnough i.resolution_note
    × (is_some i.resolved_at ≡ true)
    × PoorlyRated i.feedback

pub record IsSound (i : Incident) : Type 0 where
  pub log_agrees : last_status i.status_log_entries ≡ logged_status i.state
  pub fields : StateFields i.state i

-- Every call, whether it succeeds or throws, keeps the invariant.
pub perform-IsSound : (c : Call) (w : World) → IsSound w.incident → IsSound (after c w).incident
unfolding perform
perform-IsSound (assign_call now r) w v = grind (arith, last_status-append)
perform-IsSound start_call w v = v
perform-IsSound (resolve_call now n p) w v = grind (arith, last_status-append)
perform-IsSound (escalate_call now reason) w v = grind (arith, last_status-append)
perform-IsSound (reopen_call reason) w v = v
perform-IsSound (feedback_call now rating) w v = grind (arith, last_status-append)

-- A sound incident stays sound under any sequence of calls, refused ones included: its log ends in
-- the status of its state, a resolved one has its photo, a note of ten units or more and its time,
-- a reopened one its poor rating too, and an escalated one is marked in its policy.
pub perform_all-IsSound :
    (cs : List Call) (w : World) → IsSound w.incident → IsSound (perform_all cs w).incident
unfolding perform_all
perform_all-IsSound [] w v = v
perform_all-IsSound (c ∷ cs) w v = perform_all-IsSound cs (after c w) (perform-IsSound c w v)
