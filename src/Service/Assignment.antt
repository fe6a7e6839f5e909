-- ===== src/Service/Assignment.antt =====
-- What an automatic assignment has checked, saved and announced.
use campusops.Common.{
  ℕ, ◌≡◌, refl, ap, ◌∙◌, String, Bool, true, false, not, Option, none, some, List, arith,
}
use mathlib.Core.List.{Memᴰ}
use campusops.Common.Exec.{Exec, Result, ok, err, throw_if, ◌>>=◌, >>=-eq-ok, throw_if-eq-ok}
use campusops.Errors.{Thrown, domain, type_error, incident_not_assignable}
use campusops.User.{Staff, is_active}
use campusops.Incident.{in_progress_state, World, StaffRef, Event, incident_assigned}
use campusops.Incident.States.{assign_staff}
use campusops.Strategy.{Department}
use campusops.Strategy
use campusops.Strategy.Choice.{assign_picks_active}
use campusops.Service.{
  Loaded, IncidentRepo, DepartmentRepo, loaded_world, refs, is_assignable, need, lift, hand_over,
  pick, with_strategy, with_department, assign_found, assign_incident,
}
use campusops.Service.Outcomes.{Stored, act-store-ok, assign_facts}

module _ {S : Type 0} where
  need-ok :
      {A : Type 0} (e : Thrown) (f : A → Exec S Thrown (Option World)) (o : Option A) (v : World)
      (s t : S)
      → need e f o s ≡ (ok (some v), t)
      → (a : A) × (o ≡ some a) × (f a s ≡ (ok (some v), t))
  unfolding need
  need-ok e f none v s t h = cc
  need-ok e f (some a) v s t h = (a, refl, h)

  lift-ok :
      {A : Type 0} (r : Result Thrown A) (f : A → Exec S Thrown (Option World)) (v : World)
      (s t : S)
      → (lift r >>= f) s ≡ (ok (some v), t)
      → (a : A) × (r ≡ ok a) × (f a s ≡ (ok (some v), t))
  lift-ok (ok a) f v s t h = (a, refl, h)
  lift-ok (err e) f v s t h = cc

not-false : (b : Bool) → not b ≡ false → b ≡ true
not-false b h = ground arith

module _ {S : Type 0} (repo : IncidentRepo S) (departments : DepartmentRepo S)
    (publish : Event → World → S → World × S) (zone : ℕ → ℕ) (now : ℕ) where
  -- The candidate `r` among the eligible staff is active, and `w` is what the assignment to that
  -- candidate makes of the loaded objects, with the incident in progress.
  pub record Assigned (l : Loaded) (eligible : List Staff) (r : StaffRef) (w : World) : Type 0 where
    pub taken_over : assign_staff now r (loaded_world l eligible) ≡ (ok tt, w)
    pub candidate : Memᴰ r (refs 0 eligible)
    pub active_staff : is_active ((loaded_world l eligible).staff r).staff_state ≡ true
    pub in_progress : w.incident.state ≡ in_progress_state
    pub assignee : w.incident.assigned_to ≡ some r

  picked :
      (l : Loaded) (d : Department) (eligible : List Staff) (r : StaffRef)
      → pick repo departments publish zone now l d eligible ≡ ok r
      → Memᴰ r (refs 0 eligible)
        × (is_active ((loaded_world l eligible).staff r).staff_state ≡ true)
  unfolding pick
  picked l d eligible r h =
      assign_picks_active (loaded_world l eligible).staff zone now none l.incident
        (Strategy.create d.assignment_strategy) (refs 0 eligible) (some d) r h

  handed_over :
      (l : Loaded) (eligible : List Staff) (r : StaffRef) (v : World) (u t : S)
      → hand_over repo departments publish zone now l eligible r u ≡ (ok (some v), t)
      → (w : World) × (assign_staff now r (loaded_world l eligible) ≡ (ok tt, w))
        × Stored repo departments publish zone now (incident_assigned r) w u v t
  unfolding hand_over
  handed_over l eligible r v u t h =
      act-store-ok repo departments publish zone now (assign_staff now r) (λ w. incident_assigned r)
        (loaded_world l eligible) v u t h

  with_strategy-ok :
      (l : Loaded) (eligible : List Staff) (d : Department) (v : World) (u t : S)
      → with_strategy repo departments publish zone now l eligible d u ≡ (ok (some v), t)
      → (r : StaffRef) × (w : World) × Assigned l eligible r w
        × Stored repo departments publish zone now (incident_assigned r) w u v t
  unfolding with_strategy
  with_strategy-ok l eligible d v u t h =
      let (r, chosen, rest) =
        lift-ok (pick repo departments publish zone now l d eligible)
          (hand_over repo departments publish zone now l eligible) v u t h in
      let (w, done, stored) = handed_over l eligible r v u t rest in
      let (m, a) = picked l d eligible r chosen in
      let (b, c) = assign_facts now r (loaded_world l eligible) w done in
      (
        r,
        w,
        record {
          taken_over = done;
          candidate = m;
          active_staff = a;
          in_progress = b;
          assignee = c;
        },
        stored,
      )

  with_department-ok :
      (l : Loaded) (o : Option Department) (v : World) (u t : S)
      → with_department repo departments publish zone now l o u ≡ (ok (some v), t)
      → (eligible : List Staff) × (x : S) × (departments.find_eligible_staff
            l.incident.department_id l.incident.category u
          ≡ (ok eligible, x))
        × ((r : StaffRef) × (w : World) × Assigned l eligible r w
            × Stored repo departments publish zone now (incident_assigned r) w x v t)
  unfolding with_department
  with_department-ok l o v u t h =
      let (eligible, x, found, rest) =
        >>=-eq-ok (departments.find_eligible_staff l.incident.department_id l.incident.category)
          (λ es. need type_error (with_strategy repo departments publish zone now l es) o) u h in
      let (d, same, went) =
        need-ok type_error (with_strategy repo departments publish zone now l eligible) o v x t
          rest in
      (eligible, x, found, with_strategy-ok l eligible d v x t went)

  -- When `assignIncident` returns, the incident was loaded in a state that admits an assignment, and
  -- what was saved and then announced is that incident in progress with an active one of the staff
  -- that the department's query found eligible.
  pub assign_incident_sound :
      (id : String) (v : World) (s t : S)
      → assign_incident repo departments publish zone now id s ≡ (ok (some v), t)
      → (l : Loaded) × (u : S) × (repo.find_by_id id s ≡ (ok (some l), u))
        × (is_assignable l.incident.state ≡ true)
        × ((eligible : List Staff) × (y : S) × (x : S) × (r : StaffRef) × (w : World)
            × (departments.find_eligible_staff l.incident.department_id l.incident.category y
                ≡ (ok eligible, x))
            × Assigned l eligible r w
            × Stored repo departments publish zone now (incident_assigned r) w x v t)
  unfolding assign_incident assign_found
  assign_incident_sound id v s t h =
      let (o, u, found, rest) =
        >>=-eq-ok (repo.find_by_id id)
          (need (domain incident_not_assignable) (assign_found repo departments publish zone now)) s
          h in
      let (l, same, went) =
        need-ok (domain incident_not_assignable) (assign_found repo departments publish zone now) o
          v u t rest in
      let (_, u₁, checked, looked) =
        >>=-eq-ok (throw_if (not (is_assignable l.incident.state)) (domain incident_not_assignable))
          (λ (a : Unit {0}).
            departments.find_by_id l.incident.department_id
            >>= with_department repo departments publish zone now l)
          u went in
      let (admits, _) =
        throw_if-eq-ok (not (is_assignable l.incident.state)) (domain incident_not_assignable) u
          checked in
      let (d, u₂, _, staffed) =
        >>=-eq-ok (departments.find_by_id l.incident.department_id)
          (with_department repo departments publish zone now l) u₁ looked in
      let (eligible, x, queried, later) = with_department-ok l d v u₂ t staffed in
      let (r, w, assigned, stored) = later in
      (
        l,
        u,
        found ∙ ap {B = Result Thrown (Option Loaded) × S} (λ p. (ok p, u)) same,
        not-false (is_assignable l.incident.state) admits,
        (eligible, u₂, x, r, w, queried, assigned, stored),
      )
