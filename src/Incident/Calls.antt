-- ===== src/Incident/Calls.antt =====
-- The public methods of `Incident` (domain/entities/Incident.js) as one type of calls, and a caller
-- that sends a sequence of them and survives what they throw.
use campusops.Common.{ℕ, String, Option, List, [], ◌∷◌, Bool, true, false}
use campusops.Common.Exec.{Result, ok, err}
use campusops.Common.Text.{Text}
use campusops.Errors.{Thrown}
use campusops.Incident.{StaffRef, Note, Rating, World}
use campusops.Incident.States.{
  assign_staff, start_progress, resolve, escalate, reopen, receive_feedback,
}

pub data Call : Type 0 where
  assign_call : ℕ → StaffRef → Call
  start_call : Call
  resolve_call : ℕ → Option Text → Option String → Call
  escalate_call : ℕ → Note → Call
  reopen_call : Note → Call
  feedback_call : ℕ → Rating → Call

unfoldable pub perform : Call → World → Result Thrown (Unit {0}) × World
unfolding assign_staff start_progress resolve escalate reopen receive_feedback
perform (assign_call now r) = assign_staff now r
perform start_call = start_progress
perform (resolve_call now n p) = resolve now n p
perform (escalate_call now reason) = escalate now reason
perform (reopen_call reason) = reopen reason
perform (feedback_call now rating) = receive_feedback now rating

abbrev pub succeeds {ℓ} : {E A : Type ℓ} → Result E A → Bool
succeeds (ok a) = true
succeeds (err e) = false

abbrev pub after : Call → World → World
after c w = (perform c w).1

abbrev pub outcome : Call → World → Result Thrown (Unit {0})
outcome c w = (perform c w).0

unfoldable pub perform_all : List Call → World → World
perform_all [] w = w
perform_all (c ∷ cs) w = perform_all cs (after c w)
