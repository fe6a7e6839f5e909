-- ===== src/Api/Users/Examples.antt =====
-- A suspension of one of the two staff members of a department.
use campusops.Common.{
  ◌≡◌, refl, Bool, true, false, String, Option, none, some, List, [], ◌∷◌, All, str_eq, str_eq_iff,
  if◌then◌else◌,
}
use campusops.Common.Exec.{Result, ok, err}
use campusops.Common.Int.{pos}
use campusops.Errors.{Thrown, type_error}
use campusops.User.{StaffState, active, suspended, maintenance, admin}
use campusops.Incident.{maintenance_category}
use campusops.Strategy.{Department}
use campusops.Departments.{StaffRow, Where, DepartmentTables, meets, to_staff, find_eligible_staff}
use campusops.Realtime.{SocketUser}
use campusops.Api.Users.{UserClient, UserRow, read_staff_state, update_staff_state}
use campusops.Api.Users.Suspension.{Listed, RecordsState, suspended_not_eligible}

-- The state is the first member's.
abbrev State : Type 0
State = Option StaffState

abbrev sam : State → StaffRow
sam s = record {
  id = "S1";
  role = maintenance;
  department_id = some "D1";
  is_active = true;
  active_task_count = some (pos 1);
  staff_state = s;
  penalty_count = none;
  shift_days = none;
  shift_start = none;
  shift_end = none;
}

abbrev tina : StaffRow
tina = record (sam (some active)) { id = "S2" }

abbrev row_of : State → UserRow
row_of s = record {
  safe = record {
    id = "S1";
    name = "Sam";
    email = "sam@college.edu";
    phone = none;
    role = maintenance;
    department_id = some "D1";
    is_active = true;
    staff_state = s;
    active_task_count = pos 1;
    penalty_count = 3;
    prefs = record { realtime = true; email = true; sms = false };
  };
  password_hash = "secret";
  failed_login_count = none;
  locked_until = none;
}

-- An update of a row that is not there fails.
abbrev written : Bool → StaffState → State → Result Thrown UserRow × State
written b k s = if b then (ok (row_of (some k)), some k) else (err type_error, s)

abbrev two : UserClient State
two = record {
  find = λ id s. (ok (some (row_of s)), s);
  update_profile = λ id d s. (ok (row_of s), s);
  update_staff_state = λ id k s. written (str_eq id "S1") k s;
  count = λ f s. (ok 2, s);
  find_many = λ f k n s. (ok [], s);
}

abbrev found : State → Bool → Bool → List StaffRow
found s true true = sam s ∷ tina ∷ []
found s true false = sam s ∷ []
found s false true = tina ∷ []
found s false false = []

abbrev works : Department
works = record {
  id = "D1";
  name = "Works";
  assignment_strategy = "ROUND_ROBIN";
  round_robin_index = none;
}

abbrev team : DepartmentTables State
team = record {
  find_unique = λ id s. (ok (some works), s);
  find_many = λ w s. (ok (found s (meets w (sam s)) (meets w tina)), s);
}

abbrev Suspended : String → State → Type 0
Suspended id s = (s ≡ some suspended) × (str_eq id "S1" ≡ true)

sam_listed :
    (id : String) (w : Where) (s : State)
    → Suspended id s
    → meets w (sam s) ≡ true
    → Listed id (sam s)
sam_listed id w s (off, is) h = ((w, h), λ e. off)

tina_listed :
    (id : String) (w : Where) (s : State) → Suspended id s → meets w tina ≡ true → Listed id tina
tina_listed id w s (off, is) h = ((w, h), λ e. cc (rw ((str_eq_iff id "S1").0 is) at e))

found_listed :
    (id : String) (w : Where) (s : State) (b c : Bool)
    → Suspended id s
    → meets w (sam s) ≡ b
    → meets w tina ≡ c
    → All (Listed id) (found s b c)
found_listed id w s true true off h k = (sam_listed id w s off h, (tina_listed id w s off k, tt))
found_listed id w s true false off h k = (sam_listed id w s off h, tt)
found_listed id w s false true off h k = (tina_listed id w s off k, tt)
found_listed id w s false false off h k = tt

written_inv :
    (b : Bool) (k : StaffState) (s t : State) (row : UserRow)
    → written b k s ≡ (ok row, t)
    → (b ≡ true) × (t ≡ some k)
written_inv true k s t row h = (refl, cc)
written_inv false k s t row h = cc

two-RecordsState : RecordsState two team Suspended
two-RecordsState = record {
  recorded =
      λ id s t row h. let (is, now) = written_inv (str_eq id "S1") suspended s t row h in (now, is);
  found = λ id w s t rows off h.
      let same : s ≡ t = cc in
      let these : found s (meets w (sam s)) (meets w tina) ≡ rows = cc in
      (
        rw (← same) off,
        rw (← these) (found_listed id w s (meets w (sam s)) (meets w tina) off refl refl),
      );
}

abbrev mira : SocketUser
mira = record { id = "A1"; name = "Mira"; role = admin; department_id = none }

suspended_not_eligible_example : All (λ e. str_eq e.id "S1" ≡ false) (to_staff tina ∷ [])
unfolding update_staff_state read_staff_state find_eligible_staff meets
suspended_not_eligible_example =
    suspended_not_eligible two mira "S1" team Suspended two-RecordsState
      (row_of (some suspended)).safe (some active) (some suspended) (some suspended) "D1"
      (some maintenance_category) (to_staff tina ∷ []) refl refl
