-- ===== src/Incident/States.antt =====
-- domain/states: what each state class does with the actions of an incident, and the methods of
-- `Incident` that delegate to the state. `now` is the clock of the call.
use campusops.Common.{
  ℕ, ◌+◌, String, Bool, true, false, Option, none, some, [], not, ltb, leb, length, str_eq,
  or_default, if◌then◌else◌,
}
use campusops.Common.Exec.{pure, throw, gets, throw_if, when, ◌>>=◌, ◌>>◌}
use campusops.Common.Int.{incr, decr, clamp_zero}
use campusops.Common.Text.{Text, trim, is_empty}
use campusops.Errors.{
  domain, type_error, invalid_transition, resolution_photo_required, resolution_note_too_short,
  staff_unavailable,
}
use campusops.User.{under_review, is_active}
use campusops.Sla.{SlaPolicy}
use campusops.Incident.{
  IncidentState, open_state, in_progress_state, resolved_state, escalated_state, reopened_state,
  Score, undefined, null, points, Rating, Note, assigned_note, assigned_after_escalation,
  reassigned_after_failed, text_note, reopened_rating, StaffRef, Event, incident_resolved,
  incident_assigned, incident_reassigned, incident_escalated, incident_reopened_by_feedback,
  feedback_received, staff_under_review, World, Action, edit, edit_staff, set_state,
  add_to_status_log, publish,
}

-- `this.constructor.name`
abbrev pub class_name : IncidentState → String
class_name open_state = "OpenState"
class_name in_progress_state = "InProgressState"
class_name resolved_state = "ResolvedState"
class_name escalated_state = "EscalatedState"
class_name reopened_state = "ReopenedState"

-- Every action of the base class `IncidentState`.
unfoldable pub refuse : IncidentState → String → Action
refuse s action = throw (domain (invalid_transition (class_name s) action))

-- The lines that the three `assignStaff` methods share: the counter, the log and the new state.
take_over : ℕ → StaffRef → Note → Event → Action
unfolding set_state add_to_status_log publish
take_over now r note e = do
  staff ← gets (λ (w : World). w.staff r)
  edit (λ i. record i { assigned_to_id = some staff.id })
  edit_staff r (λ s. record s { active_task_count = incr s.active_task_count })
  add_to_status_log now (record {
    status = "IN_PROGRESS";
    changed_by_id = some staff.id;
    note = note;
    changed_at = none;
  })
  set_state in_progress_state
  publish e

open_assign_staff : ℕ → StaffRef → Action
unfolding take_over
open_assign_staff now r = do
  staff ← gets (λ (w : World). w.staff r)
  throw_if (not (is_active staff.staff_state)) (domain (staff_unavailable staff.id))
  take_over now r assigned_note (incident_assigned r)

-- `incident.sla.isEscalated = true`, a `TypeError` when there is no policy
mark_escalated : Option SlaPolicy → Action
mark_escalated none = throw type_error
mark_escalated (some p) = edit (λ i. record i { sla = some (record p { is_escalated = true }) })

-- The `escalate` of `OpenState` and of `InProgressState`, which read alike.
do_escalate : ℕ → Note → Action
unfolding mark_escalated set_state add_to_status_log publish
do_escalate now reason = do
  sla ← gets (λ (w : World). w.incident.sla)
  mark_escalated sla
  add_to_status_log now
      (record { status = "ESCALATED"; changed_by_id = none; note = reason; changed_at = none })
  set_state escalated_state
  publish (incident_escalated reason)

-- `!photo` and `!note || note.trim().length < 10`
abbrev pub no_photo : Option String → Bool
no_photo none = true
no_photo (some p) = str_eq p ""

abbrev pub note_too_short : Option Text → Bool
note_too_short none = true
note_too_short (some n) = if is_empty n then true else ltb (length (trim n)) 10

-- `if (incident.assignedTo) assignedTo.activeTaskCount = Math.max(0, … - 1)`
release_staff : Option StaffRef → Action
release_staff none = pure tt
release_staff (some r) =
    edit_staff r (λ s. record s { active_task_count = clamp_zero (decr s.active_task_count) })

in_progress_resolve : ℕ → Option Text → Option String → Action
unfolding release_staff set_state add_to_status_log publish
in_progress_resolve now note photo = do
  throw_if (no_photo photo) (domain resolution_photo_required)
  throw_if (note_too_short note) (domain resolution_note_too_short)
  edit λ i. record i {
    resolution_note = some (trim (or_default note []));
    resolution_photo = photo;
    resolved_at = some now;
  }
  incident ← gets (λ (w : World). w.incident)
  release_staff incident.assigned_to
  add_to_status_log now (record {
    status = "RESOLVED";
    changed_by_id = incident.assigned_to_id;
    note = text_note (or_default note []);
    changed_at = none;
  })
  set_state resolved_state
  publish incident_resolved

-- `rating.score <= 2`, by the coercions of the language: `undefined` fails, `null` counts as 0
abbrev pub is_poor : Score → Bool
is_poor undefined = false
is_poor null = true
is_poor (points n) = leb n 2

-- The penalty, and the second state machine: three of them put the staff member under review.
penalise : Option StaffRef → Action
unfolding publish
penalise none = pure tt
penalise (some r) = do
  edit_staff r (λ s. record s { penalty_count = s.penalty_count + 1 })
  staff ← gets (λ (w : World). w.staff r)
  when (leb 3 staff.penalty_count) (do
    edit_staff r (λ s. record s { staff_state = under_review })
    publish (staff_under_review r))

resolved_receive_feedback : ℕ → Rating → Action
unfolding penalise set_state add_to_status_log publish
resolved_receive_feedback now rating = do
  edit λ i. record i {
    feedback = some (record { score = rating.score; comment = rating.comment; submitted_at = now });
  }
  if is_poor rating.score
      then (do
        assigned_to ← gets (λ (w : World). w.incident.assigned_to)
        penalise assigned_to
        add_to_status_log now (record {
          status = "REOPENED";
          changed_by_id = none;
          note = reopened_rating rating.score;
          changed_at = none;
        })
        set_state reopened_state
        publish (incident_reopened_by_feedback rating))
      else publish (feedback_received rating)

state_assign_staff : IncidentState → ℕ → StaffRef → Action
unfolding open_assign_staff take_over refuse
state_assign_staff open_state now r = open_assign_staff now r
state_assign_staff escalated_state now r =
    take_over now r assigned_after_escalation (incident_assigned r)
state_assign_staff reopened_state now r =
    take_over now r reassigned_after_failed (incident_reassigned r)
state_assign_staff s _ _ = refuse s "assignStaff"

state_resolve : IncidentState → ℕ → Option Text → Option String → Action
unfolding in_progress_resolve refuse
state_resolve in_progress_state now note photo = in_progress_resolve now note photo
state_resolve s _ _ _ = refuse s "resolve"

state_escalate : IncidentState → ℕ → Note → Action
unfolding do_escalate refuse
state_escalate open_state now reason = do_escalate now reason
state_escalate in_progress_state now reason = do_escalate now reason
state_escalate s _ _ = refuse s "escalate"

state_receive_feedback : IncidentState → ℕ → Rating → Action
unfolding resolved_receive_feedback refuse
state_receive_feedback resolved_state now rating = resolved_receive_feedback now rating
state_receive_feedback s _ _ = refuse s "receiveFeedback"

-- `Incident.assignStaff(staff)`: the reference is written before the state is asked.
unfoldable pub assign_staff : ℕ → StaffRef → Action
unfolding state_assign_staff
assign_staff now r = do
  edit (λ i. record i { assigned_to = some r })
  state ← gets (λ (w : World). w.incident.state)
  state_assign_staff state now r

-- `this.state.startProgress?.(this)`: no state class has the method, so the call is skipped.
unfoldable pub start_progress : Action
start_progress = pure tt

unfoldable pub resolve : ℕ → Option Text → Option String → Action
unfolding state_resolve
resolve now note photo = do
  state ← gets (λ (w : World). w.incident.state)
  state_resolve state now note photo

unfoldable pub escalate : ℕ → Note → Action
unfolding state_escalate
escalate now reason = do
  state ← gets (λ (w : World). w.incident.state)
  state_escalate state now reason

-- No state class overrides `reopen`.
unfoldable pub reopen : Note → Action
unfolding refuse
reopen reason = do state ← gets (λ (w : World). w.incident.state); refuse state "reopen"

unfoldable pub receive_feedback : ℕ → Rating → Action
unfolding state_receive_feedback
receive_feedback now rating = do
  state ← gets (λ (w : World). w.incident.state)
  state_receive_feedback state now rating
