-- ===== src/Strategy.antt =====
-- domain/strategies/AssignmentStrategy.js: how a department picks the staff member to assign.
-- The candidates are values of any type `A` that shows a staff member: objects, or references.
pub mod Ranking
pub mod Choice
pub mod Rotation
mod Examples
use campusops.Common.{
  ℕ, zero, suc, ◌+◌, ◌%◌, String, Bool, true, false, ◌&&◌, not, Option, none, some, List, [], ◌∷◌,
  filter, find, length, get_elem?, or_default, str_eq, if◌then◌else◌,
}
use campusops.Common.Exec.{Result, ok, err, Exec, throw, pure}
use campusops.Common.Int.{ℤ, ltb_ℤ}
use campusops.Errors.{
  Thrown, domain, plain_error, no_staff_available, staff_not_eligible, staff_unavailable,
}
use campusops.User.{Staff, StaffClass, maintenance_staff, security_officer, plain_object, is_active}
use campusops.User.Shift.{is_on_shift, is_available_for, is_on_call}
use campusops.Sla.{SlaPolicy}
use campusops.Incident.{Incident}

pub record Department : Type 0 where
  pub id : String
  pub name : String
  pub assignment_strategy : String
  pub round_robin_index : Option ℕ

pub data Strategy : Type 0 where
  least_loaded round_robin shift_aware manual : Strategy

-- `StrategyFactory.create(name)`: an unknown name falls back to the least loaded.
unfoldable pub create : String → Strategy
create name =
    if str_eq name "LEAST_LOADED"
    then least_loaded
    else if str_eq name "ROUND_ROBIN"
    then round_robin
    else if str_eq name "SHIFT_AWARE"
    then shift_aware
    else if str_eq name "MANUAL"
    then manual
    else least_loaded

-- The methods that a staff object lacks are tested for: `typeof staff.isOnShift === 'function'`.
module _ (zone : ℕ → ℕ) (now : ℕ) where
  abbrev on_shift_now : StaffClass → Staff → Bool
  on_shift_now maintenance_staff s = is_on_shift zone s now
  on_shift_now _ s = true

  abbrev covers : ℕ → StaffClass → Staff → Bool
  covers hours maintenance_staff s = is_available_for zone s hours now
  covers hours _ s = true

  abbrev on_call : StaffClass → Staff → Bool
  on_call maintenance_staff s = is_on_call zone s now
  on_call _ s = false

  -- The three tests of the strategies.
  unfoldable pub is_available : Staff → Bool
  is_available s = is_active s.staff_state && on_shift_now s.class s

  unfoldable pub covers_window : ℕ → Staff → Bool
  covers_window hours s = if not (is_active s.staff_state) then false else covers hours s.class s

  unfoldable pub is_reserve : Staff → Bool
  is_reserve s = if not (is_active s.staff_state) then false else on_call s.class s

abbrev pub window_hours : Option SlaPolicy → ℕ
window_hours none = 4
window_hours (some p) = p.window_hours

module _ {A : Type 0} (view : A → Staff) where
  abbrev pub task_count : A → ℤ
  task_count a = (view a).active_task_count

  -- The stable sort by `a.activeTaskCount - b.activeTaskCount`: equal ones keep their order.
  insert : A → List A → List A
  insert a [] = a ∷ []
  insert a (b ∷ bs) =
      let rest = insert a bs in if ltb_ℤ (task_count b) (task_count a) then b ∷ rest else a ∷ b ∷ bs

  pub sort : List A → List A
  sort [] = []
  sort (a ∷ xs) = insert a (sort xs)

  -- `[0]` of a list that the code has tested not to be empty, or the error for an empty one.
  first_or : Thrown → List A → Result Thrown A
  first_or e [] = err e
  first_or e (a ∷ xs) = ok a

  least_loaded_assign : (zone : ℕ → ℕ) (now : ℕ) → Incident → List A → Result Thrown A
  unfolding first_or
  least_loaded_assign zone now incident eligible =
      first_or (domain (no_staff_available incident.department_id))
        (sort (filter (λ a. is_available zone now (view a)) eligible))

  pick_turn : Incident → ℕ → List A → Option A → Department → Result Thrown A × Option Department
  pick_turn incident idx active none d =
      (err (domain (no_staff_available incident.department_id)), some d)
  pick_turn incident idx active (some a) d =
      (ok a, some (record d { round_robin_index = some ((idx + 1) % length active) }))

  -- The index is advanced on the department object that the options hold.
  round_robin_assign : Incident → List A → Exec (Option Department) Thrown A
  unfolding pick_turn
  round_robin_assign incident eligible none =
      (err (plain_error "RoundRobinStrategy requires a department object in options"), none)
  round_robin_assign incident eligible (some d) =
      let active = filter (λ a. is_active (view a).staff_state) eligible in
      let idx = or_default d.round_robin_index 0 % length active in
      pick_turn incident idx active (get_elem? active idx) d

  or_on_call : Thrown → Option A → List A → Result Thrown A
  or_on_call e none [] = err e
  or_on_call e (some b) [] = ok b
  or_on_call e fallback (a ∷ xs) = ok a

  shift_aware_assign : (zone : ℕ → ℕ) (now : ℕ) → Incident → List A → Result Thrown A
  unfolding or_on_call
  shift_aware_assign zone now incident eligible =
      or_on_call (domain (no_staff_available incident.department_id))
        (find (λ a. is_reserve zone now (view a)) eligible)
        (sort (filter (λ a. covers_window zone now (window_hours incident.sla) (view a)) eligible))

  check_target : String → Option A → Result Thrown A
  check_target target none = err (domain (staff_not_eligible target))
  check_target target (some a) =
      if not (is_active (view a).staff_state) then err (domain (staff_unavailable target)) else ok a

  manual_assign : Option String → List A → Result Thrown A
  unfolding check_target
  manual_assign none eligible = err (plain_error "ManualStrategy requires options.targetStaffId")
  manual_assign (some target) eligible =
      if str_eq target ""
      then err (plain_error "ManualStrategy requires options.targetStaffId")
      else check_target target (find (λ a. str_eq (view a).id target) eligible)

  -- `strategy.assign(incident, eligibleStaff, { department, targetStaffId })`
  unfoldable pub assign :
      (zone : ℕ → ℕ) (now : ℕ)
      → Strategy
      → Option String
      → Incident
      → List A
      → Exec (Option Department) Thrown A
  unfolding least_loaded_assign round_robin_assign shift_aware_assign manual_assign sort insert
  assign zone now least_loaded target incident eligible d =
      (least_loaded_assign zone now incident eligible, d)
  assign zone now round_robin target incident eligible d = round_robin_assign incident eligible d
  assign zone now shift_aware target incident eligible d =
      (shift_aware_assign zone now incident eligible, d)
  assign zone now manual target incident eligible d = (manual_assign target eligible, d)
