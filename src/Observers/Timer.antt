-- ===== src/Observers/Timer.antt =====
-- domain/observers/SLATimerManager.js: the escalation job of an incident.
-- The queue is a parameter; `S` is the state behind it.
use Prim.Native.String.{◌++◌ as ◌+++◌}
use campusops.Common.{
  ℕ, ◌+◌, ◌*◌, ◌≤◌, ◌-◌, ◌≡◌, refl, String, Bool, true, false, Option, none, some, or_default,
  str_eq, if◌then◌else◌, arith,
}
use campusops.Common.Exec.{Exec, Result, ok, err, pure, ◌>>=◌}
use campusops.Errors.{Thrown}
use campusops.User.{Staff}
use campusops.Sla.{SlaPolicy, window_of, hour_ms}
use campusops.Incident.{Incident, World, Event}
use campusops.Validation.{Dto}
use campusops.Factory.Built.{IsFresh}
use campusops.Service.{IncidentRepo, DepartmentRepo, create_incident}
use campusops.Service.Creation.{Created, create_incident_sound}

-- What is added: the id of the job, the incident that it names, and the delay in milliseconds.
pub record Job : Type 0 where
  pub job_id : String
  pub incident_id : Option String
  pub escalation_level : ℕ
  pub delay : ℕ

-- `add` returns the job's id, `get_job` whether there is one, and `remove` removes it.
pub record Queue (S : Type 0) : Type 0 where
  pub add : Job → Exec S Thrown String
  pub get_job : String → Exec S Thrown Bool
  pub remove : String → Exec S Thrown (Unit {0})

-- The job of an incident with a deadline; a deadline that has passed leaves no delay.
unfoldable pub job_of : ℕ → ℕ → Incident → Job
job_of now deadline i = record {
  job_id = "sla:" +++ (or_default i.id "null" +++ ":1");
  incident_id = i.id;
  escalation_level = 1;
  delay = deadline - now;
}

abbrev deadline_of : Option SlaPolicy → Option ℕ
deadline_of none = none
deadline_of (some p) = p.deadline_at

module _ {S : Type 0} (queue : Queue S) where
  schedule_at : ℕ → Incident → Option ℕ → Exec S Thrown Incident
  unfolding job_of
  schedule_at now i none = pure i
  schedule_at now i (some deadline) =
      queue.add (job_of now deadline i) >>= λ id. pure (record i { sla_job_id = some id })

  -- `_scheduleEscalation(incident)`
  unfoldable pub schedule_escalation : ℕ → Incident → Exec S Thrown Incident
  unfolding schedule_at
  schedule_escalation now i = schedule_at now i (deadline_of i.sla)

  remove_found : String → Bool → Exec S Thrown (Unit {0})
  remove_found id false = pure tt
  remove_found id true = queue.remove id

  cancel_known : Option String → Exec S Thrown (Unit {0})
  unfolding remove_found
  cancel_known none s = (ok tt, s)
  cancel_known (some id) s =
      if str_eq id "" then (ok tt, s) else (ok tt, ((queue.get_job id >>= remove_found id) s).1)

  -- `_cancelEscalation(incident)`: what the queue throws is logged and swallowed.
  unfoldable pub cancel_escalation : Incident → Exec S Thrown (Unit {0})
  unfolding cancel_known
  cancel_escalation i = cancel_known i.sla_job_id

  -- `handle(eventType, payload)`, with the incident that it leaves.
  unfoldable pub handle : ℕ → String → Incident → Exec S Thrown Incident
  unfolding schedule_escalation cancel_escalation
  handle now type i =
      (if str_eq type "INCIDENT_CREATED" then schedule_escalation now i else pure i) >>= λ j.
      if str_eq type "INCIDENT_RESOLVED" then cancel_escalation j >>= (λ u. pure j) else pure j

  resolved_without_job :
      (now : ℕ) (i : Incident) (q : S)
      → i.sla_job_id ≡ none
      → handle now "INCIDENT_RESOLVED" i q ≡ (ok i, q)
  unfolding handle cancel_escalation cancel_known
  resolved_without_job now i q h = rw h refl

  kept_result : (r : Result Thrown Incident × S) → ((λ (s : S). r) >>= λ j. pure j) r.1 ≡ r
  kept_result (ok i, t) = refl
  kept_result (err e, t) = refl

  bind_pure : (m : Exec S Thrown Incident) (s : S) → (m >>= λ j. pure j) s ≡ m s
  bind_pure m s = kept_result (m s)

  -- The observer of a new incident adds one job for it, which falls due at the deadline of its
  -- priority, or at once when that has passed, and writes the id of the job on the incident.
  pub created_due :
      (created_at now : ℕ) (i : Incident)
      → IsFresh i created_at
      → (job : Job) × ((s : S)
          → handle now "INCIDENT_CREATED" i s
            ≡ (queue.add job >>= λ id. pure (record i { sla_job_id = some id })) s)
        × (job.incident_id ≡ i.id)
        × (now ≤ created_at + window_of i.priority * hour_ms
            → now + job.delay ≡ created_at + window_of i.priority * hour_ms)
        × (created_at + window_of i.priority * hour_ms ≤ now → job.delay ≡ 0)
  unfolding handle schedule_escalation schedule_at job_of
  created_due created_at now i f =
      let (p, policy, window, due) = f.deadline in
      let deadline = created_at + window_of i.priority * hour_ms in
      let known : deadline_of i.sla ≡ some deadline = rw policy due in
      (
        job_of now deadline i,
        λ s. rw known (
            bind_pure
              (queue.add (job_of now deadline i) >>= λ id. pure (record i { sla_job_id = some id }))
              s),
        refl,
        λ h. omega arith,
        λ h. omega arith,
      )

module _ {S T : Type 0} (queue : Queue T) (repo : IncidentRepo S) (departments : DepartmentRepo S)
    (publish : Event → World → S → World × S) (zone : ℕ → ℕ) (now : ℕ) where
  -- Whatever the observers write on a new incident, the one that `createIncident` has saved carries
  -- no job, so that announcing its resolution leaves every queue as it is.
  pub create_incident_loses_job :
      (nobody : Staff) (number reporter : String) (dto : Dto) (v : World) (s t : S)
      → str_eq reporter "" ≡ false
      → create_incident repo departments publish zone now nobody number reporter dto s
        ≡ (ok (some v), t)
      → (i : Incident) × (x : S) × Created repo departments publish zone now nobody i x v t
        × ((later : ℕ) (q : T) → handle queue later "INCIDENT_RESOLVED" i q ≡ (ok i, q))
  create_incident_loses_job nobody number reporter dto v s t given h =
      let (formed, evidence, (u, x, clean, few, (i, made, fresh, saved))) =
        create_incident_sound repo departments publish zone now nobody number reporter dto v s t
          given h in
      (i, x, saved, λ later q. resolved_without_job queue later i q fresh.no_job)
