-- ===== src/SlaWorker.antt =====
-- jobs/workers/slaWorker.js: what the worker does with an escalation job.
-- The queue that calls it again after a failure is not in the model: a run is one attempt, and what it
-- throws is the error that makes the queue try again.
pub mod Attempts
pub mod Twice
mod Examples
use campusops.Common.{ℕ, String, Bool, true, false, ◌||◌, Option, none, some, [], if◌then◌else◌}
use campusops.Common.Exec.{Exec, Result, ok, err, pure, throw, ◌>>=◌}
use campusops.Common.Text.{codes, text_eq}
use campusops.Errors.{DomainError, invalid_transition, Thrown, domain}
use campusops.Incident.{IncidentState, Incident, World, Note, sla_breach, Event, incident_escalated}
use campusops.Incident.States.{escalate}
use campusops.Incident.Names.{get_name}
use campusops.Service.{Loaded, IncidentRepo, loaded_world}
use campusops.Repository.{of_sla}

-- The statuses for which the job is done at once.
unfoldable pub needs_nothing : IncidentState → Bool
unfolding get_name text_eq
needs_nothing s =
    text_eq (get_name s) (codes "RESOLVED")
    || text_eq (get_name s) (codes "CLOSED")
    || text_eq (get_name s) (codes "ESCALATED")

-- `err instanceof InvalidTransitionError`
abbrev pub is_invalid_transition : Thrown → Bool
is_invalid_transition (domain (invalid_transition s a)) = true
is_invalid_transition _ = false

abbrev pub reason_of : ℕ → Incident → Note
reason_of level i = sla_breach (of_sla none (λ p. some p.window_hours) i.sla) level

module _ {S : Type 0} (repo : IncidentRepo S) (publish : Event → World → S → World × S) where
  -- The event is published after the save; publishing never throws.
  unfoldable pub store_escalated : Note → World → Exec S Thrown (Unit {0})
  store_escalated reason w =
      repo.save w.incident >>= λ key s. (ok tt, (publish (incident_escalated reason) w s).1)

  -- What follows the `try` around `incident.escalate`.
  unfoldable pub settle : Note → Result Thrown (Unit {0}) × World → Exec S Thrown (Unit {0})
  unfolding store_escalated
  settle reason (ok u, w) = store_escalated reason w
  settle reason (err e, w) = if is_invalid_transition e then pure tt else throw e

  unfoldable pub process_found : ℕ → ℕ → Option Loaded → Exec S Thrown (Unit {0})
  unfolding settle needs_nothing
  process_found now level none = pure tt
  process_found now level (some l) =
      let reason = reason_of level l.incident in
      if needs_nothing l.incident.state
      then pure tt
      else settle reason (escalate now reason (loaded_world l []))

  -- The processor of `createSLAWorker`, on the data of a job.
  unfoldable pub process : ℕ → String → ℕ → Exec S Thrown (Unit {0})
  unfolding process_found
  process now id level = repo.find_by_id id >>= process_found now level
