-- ===== src/Service.antt =====
-- services/IncidentService.js: the use cases, over the repositories and the publisher.
-- `S` is the state behind the repositories. A call loads fresh objects into a `World` of its own:
-- reference 0 is the staff object attached to the loaded incident, and reference n + 1 the n-th of
-- the eligible staff, which are objects apart. What a method returns is that world, or null.
pub mod Outcomes
pub mod Steps
pub mod Assignment
pub mod Creation
mod Examples
use campusops.Common.{
  ℕ, zero, suc, ◌+◌, String, Bool, true, false, not, ◌||◌, Option, none, some, List, [], ◌∷◌, map,
  or_default, get_elem?, if◌then◌else◌, length,
}
use campusops.Common.Exec.{Exec, Result, ok, err, pure, throw, throw_if, ◌>>=◌}
use campusops.Common.Text.{Text, codes, text_eq}
use campusops.Errors.{DomainError, Thrown, domain, type_error, incident_not_assignable}
use campusops.User.{Staff}
use campusops.Incident.{
  Category, IncidentState, reopened_state, Incident, World, StaffRef, Rating, Event,
  incident_created, incident_assigned, incident_resolved, incident_reopened_by_feedback,
  feedback_received, Action,
}
use campusops.Incident.States.{assign_staff, resolve, receive_feedback}
use campusops.Incident.Names.{get_name}
use campusops.Strategy.{Department, Strategy, assign}
use campusops.Strategy
use campusops.Factory
use campusops.Validation.{Dto, Context, IncidentQueries, validate, build_validation_chain}

-- A hydrated incident and the staff object that its `assignedTo`, if any, refers to.
pub record Loaded : Type 0 where
  pub incident : Incident
  pub assignee : Staff

pub record IncidentRepo (S : Type 0) : Type 0 where
  pub queries : IncidentQueries S
  pub find_by_id : String → Exec S Thrown (Option Loaded)
  pub save : Incident → Exec S Thrown String

pub record DepartmentRepo (S : Type 0) : Type 0 where
  pub find_by_id : String → Exec S Thrown (Option Department)
  pub find_eligible_staff : String → Option Category → Exec S Thrown (List Staff)

abbrev pub loaded_world : Loaded → List Staff → World
loaded_world l eligible = record {
  incident = l.incident;
  staff = λ r. elim r [ zero ↦ l.assignee | suc n ↦ or_default (get_elem? eligible n) l.assignee ];
  outbox = [];
}

-- The references of the eligible staff.
abbrev pub refs : ℕ → List Staff → List StaffRef
refs n [] = []
refs n (s ∷ ss) = suc n ∷ refs (suc n) ss

-- `status === 'OPEN' || status === 'ESCALATED'`
unfoldable pub is_assignable : IncidentState → Bool
unfolding get_name text_eq
is_assignable s = text_eq (get_name s) (codes "OPEN") || text_eq (get_name s) (codes "ESCALATED")

-- `getCurrentStatus() === 'REOPENED' ? … : …`
unfoldable pub feedback_event : Rating → IncidentState → Event
unfolding get_name text_eq
feedback_event rating s =
    if text_eq (get_name s) (codes "REOPENED")
    then incident_reopened_by_feedback rating
    else feedback_received rating

module _ {S : Type 0} where
  finish : Result Thrown (Unit {0}) × World → Exec S Thrown World
  finish (ok u, w) s = (ok w, s)
  finish (err e, w) s = (err e, s)

  -- An action on the objects of the call; what it throws leaves the database as it is.
  unfoldable pub act : Action → World → Exec S Thrown World
  unfolding finish
  act a w s = finish (a w) s

  -- `if (!incident) return null`
  unfoldable pub if_found :
      (Loaded → Exec S Thrown (Option World)) → Option Loaded → Exec S Thrown (Option World)
  if_found f none = pure none
  if_found f (some l) = f l

  -- The value, or an error for want of it.
  unfoldable pub need :
      {A : Type 0}
      → Thrown
      → (A → Exec S Thrown (Option World))
      → Option A
      → Exec S Thrown (Option World)
  need e f none = throw e
  need e f (some a) = f a

  abbrev pub lift : {A : Type 0} → Result Thrown A → Exec S Thrown A
  lift r s = (r, s)

abbrev pub thrown_by_factory : Result DomainError Incident → Result Thrown Incident
thrown_by_factory (ok i) = ok i
thrown_by_factory (err e) = err (domain e)

-- Publishing never throws; an observer may write to the objects of the payload.
module _ {S : Type 0} (repo : IncidentRepo S) (departments : DepartmentRepo S)
    (publish : Event → World → S → World × S) (zone : ℕ → ℕ) (now : ℕ) where
  unfoldable pub announce : Event → World → Exec S Thrown (Option World)
  announce e w s = let (w', t) = publish e w s in (ok (some w'), t)

  unfoldable pub store : Event → World → Exec S Thrown (Option World)
  store e w = repo.save w.incident >>= λ id. announce e w

  -- A new incident refers to no staff object; `nobody` stands where a reference would lead.
  unfoldable pub store_new : Staff → Incident → Exec S Thrown (Option World)
  store_new nobody i = repo.save i >>= λ id.
      announce incident_created
        (record { incident = record i { id = some id }; staff = λ r. nobody; outbox = [] })

  unfoldable pub build : String → String → Dto → Exec S Thrown Incident
  build number reporter dto = lift (thrown_by_factory (Factory.create number dto reporter now))

  -- `createIncident(dto, reporter)`; `number` is drawn by the factory.
  unfoldable pub create_incident :
      Staff → (number reporter : String) → Dto → Exec S Thrown (Option World)
  create_incident nobody number reporter dto =
      validate build_validation_chain dto
        (record { user_id = some reporter; incident_repo = some repo.queries })
      >>= build number reporter
      >>= store_new nobody

  unfoldable pub hand_over : Loaded → List Staff → StaffRef → Exec S Thrown (Option World)
  hand_over l eligible r =
      act (assign_staff now r) (loaded_world l eligible) >>= store (incident_assigned r)

  -- `strategy.assign(incident, eligibleStaff, { department })`: the department object goes with the
  -- call, and so does the index that the round robin advances on it.
  unfoldable pub pick : Loaded → Department → List Staff → Result Thrown StaffRef
  pick l d eligible =
      (assign (loaded_world l eligible).staff zone now (Strategy.create d.assignment_strategy) none
        l.incident (refs 0 eligible) (some d)).0

  unfoldable pub with_strategy : Loaded → List Staff → Department → Exec S Thrown (Option World)
  with_strategy l eligible d = lift (pick l d eligible) >>= hand_over l eligible

  -- A department that is not found is null, and reading its strategy is a `TypeError`.
  unfoldable pub with_department : Loaded → Option Department → Exec S Thrown (Option World)
  with_department l d =
      departments.find_eligible_staff l.incident.department_id l.incident.category >>= λ eligible.
      need type_error (with_strategy l eligible) d

  unfoldable pub assign_found : Loaded → Exec S Thrown (Option World)
  assign_found l =
      throw_if (not (is_assignable l.incident.state)) (domain incident_not_assignable) >>= λ u.
      departments.find_by_id l.incident.department_id >>= with_department l

  -- `assignIncident(incidentId, admin)`
  unfoldable pub assign_incident : String → Exec S Thrown (Option World)
  assign_incident id = repo.find_by_id id >>= need (domain incident_not_assignable) assign_found

  unfoldable pub resolve_found : Option Text → Option String → Loaded → Exec S Thrown (Option World)
  resolve_found text photo l =
      act (resolve now text photo) (loaded_world l []) >>= store incident_resolved

  -- `resolveIncident(incidentId, resolutionNote, resolutionPhoto, staff)`
  unfoldable pub resolve_incident :
      String → Option Text → Option String → Exec S Thrown (Option World)
  resolve_incident id text photo = repo.find_by_id id >>= if_found (resolve_found text photo)

  -- The event is named by the state that the incident is in by then.
  unfoldable pub feedback_found : Rating → Loaded → Exec S Thrown (Option World)
  feedback_found rating l = act (receive_feedback now rating) (loaded_world l []) >>= λ w.
      store (feedback_event rating w.incident.state) w

  -- `submitFeedback(incidentId, rating, reporter)`
  unfoldable pub submit_feedback : String → Rating → Exec S Thrown (Option World)
  submit_feedback id rating = repo.find_by_id id >>= if_found (feedback_found rating)
