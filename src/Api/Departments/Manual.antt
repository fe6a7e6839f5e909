-- ===== src/Api/Departments/Manual.antt =====
-- Automatic assignment in a department whose strategy is MANUAL.
use campusops.Common.{ap, ◌∙◌, Option, ◌≡◌, refl, String, ℕ, true, some, List}
use campusops.Common.Exec.{ok, err}
use campusops.User.{Staff}
use campusops.Errors.{plain_error}
use campusops.Incident.{Event, World}
use campusops.Strategy.{Department}
use campusops.Strategy
use campusops.Middleware.Errors.{error_handler, error_value}
use campusops.Service.{
  IncidentRepo, DepartmentRepo, Loaded, is_assignable, pick, assign_incident, assign_found,
  with_department, with_strategy, need,
}
use campusops.Controller.{post_assign, answer}
use campusops.Api.Departments.{DepartmentClient, updated, update_strategy}

module _ {S : Type 0} (client : DepartmentClient S) (repo : IncidentRepo S)
    (departments : DepartmentRepo S) (publish : Event → World → S → World × S) (zone : ℕ → ℕ)
    (now : ℕ) where
  pick_manual :
      (l : Loaded) (d : Department) (eligible : List Staff)
      → d.assignment_strategy ≡ "MANUAL"
      → pick repo departments publish zone now l d eligible
        ≡ err (plain_error "ManualStrategy requires options.targetStaffId")
  unfolding pick Strategy.create Strategy.assign
  pick_manual l d eligible h = rw h refl

  -- What the database holds for a department's strategy: an update sets it, a look-up of the
  -- department shows it, and a look-up of an incident leaves it.
  pub record HoldsStrategy (strategy_of : S → String → Option String) : Type 0 where
    pub set :
        (id strategy : String) (d : Department) (s t : S)
        → client.update_strategy id strategy s ≡ (ok d, t)
        → strategy_of t id ≡ some strategy
    pub shown :
        (id : String) (d : Department) (s t : S)
        → departments.find_by_id id s ≡ (ok (some d), t)
        → strategy_of s id ≡ some d.assignment_strategy
    pub looked :
        (incident id : String) (o : Option Loaded) (s t : S)
        → repo.find_by_id incident s ≡ (ok o, t)
        → strategy_of t id ≡ strategy_of s id

  -- The route takes MANUAL for a department's strategy and answers 200; in every later state in which
  -- the department still has that strategy, a request to assign one of its incidents is answered
  -- with 500 and nothing is saved, although the incident is open or escalated and its department and
  -- the staff for it were found, since the service names no staff member.
  pub update_strategy-post_assign :
      (strategy_of : S → String → Option String)
      → HoldsStrategy strategy_of
      → (id incident : String) (d d' : Department) (l : Loaded) (eligible : List Staff)
        (s t u v w x : S)
      → client.update_strategy id "MANUAL" s ≡ (ok d, t)
      → strategy_of u id ≡ strategy_of t id
      → repo.find_by_id incident u ≡ (ok (some l), v)
      → l.incident.department_id ≡ id
      → is_assignable l.incident.state ≡ true
      → departments.find_by_id l.incident.department_id v ≡ (ok (some d'), w)
      → departments.find_eligible_staff l.incident.department_id l.incident.category w
        ≡ (ok eligible, x)
      → (update_strategy client id (some "MANUAL") s ≡ (ok (updated d), t))
        × ((post_assign repo departments publish zone now incident u).0.status ≡ 500)
        × ((post_assign repo departments publish zone now incident u).1 ≡ x)
  unfolding update_strategy post_assign assign_incident assign_found with_department with_strategy
      need answer error_handler error_value
  update_strategy-post_assign strategy_of holds id incident d d' l eligible s t u v w x stored still
        found own open_ dept fit =
      let read = holds.shown l.incident.department_id d' v w dept in
      let kept : strategy_of v l.incident.department_id ≡ some "MANUAL" =
        ap (λ k. strategy_of v k) own
        ∙ holds.looked incident id (some l) u v found
        ∙ still
        ∙ holds.set id "MANUAL" d s t stored in
      let manual : d'.assignment_strategy ≡ "MANUAL" = cc in
      let none_named = pick_manual l d' eligible manual in
      (
        rw stored refl,
        rw (found, open_, dept, fit, none_named) refl,
        rw (found, open_, dept, fit, none_named) refl,
      )
