-- ===== src/SlaWorker/Attempts.antt =====
-- One attempt at a job, and a second one.
use campusops.Common.{
  is_some, ap, ◌∙◌, ℕ, ◌≡◌, refl, String, Bool, true, false, some, [], arith, if◌then◌else◌,
}
use campusops.Common.Exec.{pure, Result, ok, err, ◌>>=◌}
use campusops.Sla.{SlaPolicy}
use campusops.Errors.{domain, invalid_transition, Thrown}
use campusops.Incident.{
  IncidentState, open_state, in_progress_state, resolved_state, reopened_state, escalated_state,
  Note, World, Event, incident_escalated,
}
use campusops.Incident.States.{escalate, refuse}
use campusops.Incident.Calls.{succeeds, escalate_call, perform}
use campusops.Incident.Lifecycle.{perform_exact}
use campusops.Service.{Loaded, IncidentRepo, loaded_world}
use campusops.SlaWorker.{reason_of, store_escalated, process, process_found, settle, needs_nothing}

-- The states whose `escalate` is their own.
abbrev pub is_pending : IncidentState → Bool
is_pending open_state = true
is_pending in_progress_state = true
is_pending _ = false

-- The objects after the worker escalated them.
abbrev pub escalated : ℕ → ℕ → Loaded → World
escalated now level l = (escalate now (reason_of level l.incident) (loaded_world l [])).1

is_done : IncidentState → Bool
is_done resolved_state = true
is_done escalated_state = true
is_done _ = false

needs_nothing_lem : (s : IncidentState) → needs_nothing s ≡ is_done s
unfolding needs_nothing is_done
needs_nothing_lem open_state = refl
needs_nothing_lem in_progress_state = refl
needs_nothing_lem resolved_state = refl
needs_nothing_lem escalated_state = refl
needs_nothing_lem reopened_state = refl

refuse_reopened :
    (now : ℕ) (reason : Note) (w : World)
    → w.incident.state ≡ reopened_state
    → escalate now reason w ≡ (err (domain (invalid_transition "ReopenedState" "escalate")), w)
unfolding escalate refuse
refuse_reopened now reason w h = rw h refl

pub escalate_facts :
    (now : ℕ) (reason : Note) (w : World) (p : SlaPolicy)
    → w.incident.sla ≡ some p
    → is_pending w.incident.state ≡ true
    → ((escalate now reason w).1.incident.state ≡ escalated_state)
      × ((escalate now reason w).1.incident.sla ≡ some (record p { is_escalated = true }))
unfolding escalate
escalate_facts now reason w p h st = (ground arith, ground arith)

module _ {S : Type 0} (repo : IncidentRepo S) (publish : Event → World → S → World × S) where
  settle-ok :
      (reason : Note) (r : Result Thrown (Unit {0}) × World)
      → succeeds r.0 ≡ true
      → settle repo publish reason r ≡ store_escalated repo publish reason r.1
  unfolding settle
  settle-ok reason (ok u, w) h = refl
  settle-ok reason (err e, w) h = cc

  decided :
      (now : ℕ) (reason : Note) (q : IncidentState) (w : World) (s : S)
      → w.incident.state ≡ q
      → is_some w.incident.sla ≡ true
      → (if is_done q then pure tt else settle repo publish reason (escalate now reason w)) s ≡ (
          if is_pending q
          then store_escalated repo publish reason (escalate now reason w).1 s
          else (ok tt, s))
  unfolding is_done settle perform
  decided now reason resolved_state w s h p = refl
  decided now reason escalated_state w s h p = refl
  decided now reason reopened_state w s h p = rw (refuse_reopened now reason w h) refl
  decided now reason open_state w s h p =
      let done = (perform_exact (escalate_call now reason) w).0 in
      ap (λ m. m s) (settle-ok reason (escalate now reason w) (done ∙ rw (h, p) refl))
  decided now reason in_progress_state w s h p =
      let done = (perform_exact (escalate_call now reason) w).0 in
      ap (λ m. m s) (settle-ok reason (escalate now reason w) (done ∙ rw (h, p) refl))

  pub process_found_lem :
      (now level : ℕ) (l : Loaded) (s : S)
      → is_some l.incident.sla ≡ true
      → process_found repo publish now level (some l) s ≡ (
          if is_pending l.incident.state
          then store_escalated repo publish (reason_of level l.incident) (escalated now level l) s
          else (ok tt, s))
  unfolding process_found
  process_found_lem now level l s h =
      rw (needs_nothing_lem l.incident.state)
        (decided now (reason_of level l.incident) l.incident.state (loaded_world l []) s refl h)

  -- What is left of a save once its result is there: the event, or the error of the save.
  abbrev pub announced_after :
      Note → World → Result Thrown String × S → Result Thrown (Unit {0}) × S
  announced_after reason w (ok key, v) = (ok tt, (publish (incident_escalated reason) w v).1)
  announced_after reason w (err e, v) = (err e, v)

  pub store_escalated_lem :
      (reason : Note) (w : World) (u : S)
      → store_escalated repo publish reason w u ≡ announced_after reason w (repo.save w.incident u)
  unfolding store_escalated
  store_escalated_lem reason w u = after_save (repo.save w.incident u)
    where
      after_save :
          (x : Result Thrown String × S)
          → ((λ (q : S). x) >>= λ key s. (ok tt, (publish (incident_escalated reason) w s).1)) u
            ≡ announced_after reason w x
      after_save (ok key, v) = refl
      after_save (err e, v) = refl

  -- An attempt at a job whose incident has a policy never throws unless saving does. An incident that
  -- is open or in progress is saved escalated, with its policy marked, and once it is saved the
  -- escalation is announced; for any other nothing is written.
  pub process_exact :
      (now level : ℕ) (id : String) (l : Loaded) (p : SlaPolicy) (s u : S)
      → repo.find_by_id id s ≡ (ok (some l), u)
      → l.incident.sla ≡ some p
      → (process repo publish now id level s ≡ (
          if is_pending l.incident.state
          then announced_after
              (reason_of level l.incident)
              (escalated now level l)
              (repo.save (escalated now level l).incident u)
          else (ok tt, u)))
        × (is_pending l.incident.state ≡ true
            → ((escalated now level l).incident.state ≡ escalated_state)
              × ((escalated now level l).incident.sla ≡ some (record p { is_escalated = true })))
  unfolding process
  process_exact now level id l p s u found h =
      let policy : is_some l.incident.sla ≡ true = rw h refl in
      (
        rw (found, ← store_escalated_lem (reason_of level l.incident) (escalated now level l) u)
            (process_found_lem now level l u policy),
        escalate_facts now (reason_of level l.incident) (loaded_world l []) p h,
      )
