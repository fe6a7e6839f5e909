-- ===== src/Incident/Lifecycle.antt =====
-- The state machine of an incident: which actions succeed, and where they lead.
use campusops.Common.{◌≡◌, refl, Bool, true, false, not, ◌&&◌, is_some, List, [], ◌∷◌, arith}
use campusops.Common.Exec.{err}
use campusops.Errors.{Thrown}
use campusops.User.{is_active}
use campusops.Incident.{
  IncidentState, open_state, in_progress_state, resolved_state, escalated_state, reopened_state,
  World,
}
use campusops.Incident.States.{no_photo, note_too_short, is_poor}
use campusops.Incident.Calls.{
  Call, assign_call, start_call, resolve_call, escalate_call, reopen_call, feedback_call, perform,
  succeeds, after, outcome, perform_all,
}

-- The diagram of the states, as the comments of the state classes describe it.
infix 40 ◌⟶◌ ◌⟶*◌
pub data ◌⟶◌ : IncidentState → IncidentState → Type 0 where
  assign_open : open_state ⟶ in_progress_state
  assign_escalated : escalated_state ⟶ in_progress_state
  assign_reopened : reopened_state ⟶ in_progress_state
  escalate_open : open_state ⟶ escalated_state
  escalate_in_progress : in_progress_state ⟶ escalated_state
  resolve_in_progress : in_progress_state ⟶ resolved_state
  reopen_resolved : resolved_state ⟶ reopened_state
  stay : {s : IncidentState} → s ⟶ s

pub data ◌⟶*◌ (s : IncidentState) : IncidentState → Type 0 where
  here : s ⟶* s
  next : {t u : IncidentState} → s ⟶* t → t ⟶ u → s ⟶* u

ruleset edges = (
  assign_open, assign_escalated, assign_reopened, escalate_open, escalate_in_progress,
  resolve_in_progress, reopen_resolved, stay,
)

-- One call, whether it succeeds or throws, follows an edge of the diagram or stays.
pub perform-⟶ : (c : Call) (w : World) → w.incident.state ⟶ (after c w).incident.state
unfolding perform
perform-⟶ c w = grind (arith, edges)

from_reached :
    {s : IncidentState} (cs : List Call) (w : World)
    → s ⟶* w.incident.state
    → s ⟶* (perform_all cs w).incident.state
unfolding perform_all
from_reached [] w r = r
from_reached (c ∷ cs) w r = from_reached cs (after c w) (next r (perform-⟶ c w))

-- Any sequence of calls, failing or not, follows a path of the diagram.
pub perform_all-⟶* :
    (cs : List Call) (w : World) → w.incident.state ⟶* (perform_all cs w).incident.state
perform_all-⟶* cs w = from_reached cs w here

-- The documented conditions under which a call is accepted.
abbrev assignable : IncidentState → Bool → Bool
assignable open_state is_staff_active = is_staff_active
assignable escalated_state _ = true
assignable reopened_state _ = true
assignable _ _ = false

abbrev escalatable : IncidentState → Bool
escalatable open_state = true
escalatable in_progress_state = true
escalatable _ = false

abbrev is_resolved : IncidentState → Bool
is_resolved resolved_state = true
is_resolved _ = false

abbrev is_in_progress : IncidentState → Bool
is_in_progress in_progress_state = true
is_in_progress _ = false

abbrev pub accepts : Call → World → Bool
accepts (assign_call now r) w = assignable w.incident.state (is_active (w.staff r).staff_state)
accepts start_call w = true
accepts (resolve_call now n p) w =
    is_in_progress w.incident.state && not (no_photo p) && not (note_too_short n)
accepts (escalate_call now reason) w = escalatable w.incident.state && is_some w.incident.sla
accepts (reopen_call reason) w = false
accepts (feedback_call now rating) w = is_resolved w.incident.state

-- The state that an accepted call leads to.
abbrev pub target : Call → IncidentState → IncidentState
target (assign_call now r) s = in_progress_state
target start_call s = s
target (resolve_call now n p) s = resolved_state
target (escalate_call now reason) s = escalated_state
target (reopen_call reason) s = s
target (feedback_call now rating) s = elim (is_poor rating.score) [
  | true ↦ reopened_state
  | false ↦ s
]

abbrev choose : Bool → IncidentState → IncidentState → IncidentState
choose true s t = s
choose false s t = t

-- An assignment succeeds exactly when the incident is open and the staff member active, or it is
-- escalated or reopened; a resolution when it is in progress, with a photo and a note that is long
-- enough; an escalation when it is open or in progress and has a policy; feedback when it is
-- resolved; a start always, and a reopening never. A call that succeeds leads to its target state,
-- and one that throws leaves the state.
pub perform_exact :
    (c : Call) (w : World)
    → (succeeds (outcome c w) ≡ accepts c w)
      × ((after c w).incident.state
          ≡ choose (accepts c w) (target c w.incident.state) w.incident.state)
unfolding perform
perform_exact (assign_call now r) w = (ground arith, ground arith)
perform_exact start_call w = (refl, refl)
perform_exact (resolve_call now n p) w = (ground arith, ground arith)
perform_exact (escalate_call now reason) w = (ground arith, ground arith)
perform_exact (reopen_call reason) w = (refl, refl)
perform_exact (feedback_call now rating) w = (ground arith, ground arith)

-- A call that throws has written nothing but, for `assignStaff`, the reference `assignedTo`.
pub throw_keeps_world :
    (c : Call) (w : World) {e : Thrown}
    → outcome c w ≡ err e
    → after c w
      ≡ record w { incident = record w.incident { assigned_to = (after c w).incident.assigned_to } }
unfolding perform
throw_keeps_world c w h = ground arith
