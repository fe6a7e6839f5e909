-- ===== src/Departments.antt =====
-- infrastructure/repositories/DepartmentRepository.js: departments, and the staff that an incident
-- may be assigned to. The database client is a parameter: the two calls that the repository makes.
pub mod Eligible
pub mod Rows
mod Examples
use campusops.Common.{
  ℕ, String, Bool, true, false, ◌&&◌, not, Option, none, some, List, [], ◌∷◌, ◌++◌, map, or_default,
  str_eq,
}
use campusops.Common.Exec.{Exec, pure, ◌>>=◌}
use campusops.Common.Int.{ℤ, pos}
use campusops.Common.Text.{Text}
use campusops.Errors.{Thrown}
use campusops.User.{
  UserRole, maintenance, security, StaffState, active, StaffClass, maintenance_staff,
  security_officer, Staff, is_suspended,
}
use campusops.Incident.{
  Category, maintenance_category, security_category, infrastructure_category, cleanliness_category,
  emergency_category, other_category, is_role, same_department,
}
use campusops.Strategy.{Department}
use campusops.Service.{DepartmentRepo}

-- The columns of `STAFF_SELECT` that the domain reads; the shift's are flat.
pub record StaffRow : Type 0 where
  pub id : String
  pub role : UserRole
  pub department_id : Option String
  pub is_active : Bool
  pub active_task_count : Option ℤ
  pub staff_state : Option StaffState
  pub penalty_count : Option ℕ
  pub shift_days : Option (List Text)
  pub shift_start : Option Text
  pub shift_end : Option Text

pub record RoleConfig : Type 0 where
  pub roles : List UserRole
  pub scoped_to_dept : Bool

abbrev pub default_role_config : RoleConfig
default_role_config = record { roles = maintenance ∷ security ∷ []; scoped_to_dept = false }

abbrev pub department_team : RoleConfig
department_team = record { roles = maintenance ∷ []; scoped_to_dept = true }

abbrev pub campus_guard : RoleConfig
campus_guard = record { roles = security ∷ []; scoped_to_dept = false }

-- `CATEGORY_ROLE_MAP[category] ?? DEFAULT_ROLE_CONFIG`
unfoldable pub category_role_map : Option Category → RoleConfig
category_role_map (some maintenance_category) = department_team
category_role_map (some cleanliness_category) = department_team
category_role_map (some infrastructure_category) = department_team
category_role_map (some security_category) = campus_guard
category_role_map (some emergency_category) = campus_guard
category_role_map (some other_category) = default_role_config
category_role_map none = default_role_config

-- `where`, of which `staffState: { not: 'SUSPENDED' }` and `isActive: true` are always part.
pub record Where : Type 0 where
  pub role : UserRole
  pub department_id : Option String

-- `_buildWhere(role, deptId, scopedToDept)`
unfoldable pub build_where : UserRole → String → Bool → Where
build_where role dept_id true = record { role = role; department_id = some dept_id }
build_where role dept_id false = record { role = role; department_id = none }

-- What the database takes a `where` for.
abbrev pub in_scope : Option String → Option String → Bool
in_scope none d = true
in_scope (some e) d = same_department d e

unfoldable pub meets : Where → StaffRow → Bool
meets w r =
    is_role r.role w.role
    && elim r.staff_state [ none ↦ false | some x ↦ not (is_suspended x) ]
    && r.is_active
    && in_scope w.department_id r.department_id

class_of : UserRole → StaffClass
class_of maintenance = maintenance_staff
class_of role = security_officer

-- The role that the constructor of the class sets.
role_of : UserRole → UserRole
role_of maintenance = maintenance
role_of role = security

-- `_toEntity(row)`
unfoldable pub to_staff : StaffRow → Staff
unfolding class_of role_of
to_staff r = record {
  class = class_of r.role;
  id = r.id;
  role = role_of r.role;
  department_id = r.department_id;
  active_task_count = or_default r.active_task_count (pos 0);
  staff_state = or_default r.staff_state active;
  penalty_count = or_default r.penalty_count 0;
  shift_days = or_default r.shift_days [];
  shift_start = r.shift_start;
  shift_end = r.shift_end;
}

-- `prisma.department.findUnique` and `prisma.user.findMany`, in the order of the task counts
pub record DepartmentTables (S : Type 0) : Type 0 where
  pub find_unique : String → Exec S Thrown (Option Department)
  pub find_many : Where → Exec S Thrown (List StaffRow)

module _ {S : Type 0} (tables : DepartmentTables S) where
  -- One query for a single role, and one for each of the two otherwise.
  query_staff : String → RoleConfig → List UserRole → Exec S Thrown (List StaffRow)
  unfolding build_where
  query_staff dept_id config (role ∷ []) =
      tables.find_many (build_where role dept_id config.scoped_to_dept)
  query_staff dept_id config _ =
      tables.find_many (build_where maintenance dept_id true) >>= λ maintenance_rows.
      tables.find_many (build_where security dept_id false) >>= λ security_rows.
      pure (maintenance_rows ++ security_rows)

  -- `findEligibleStaff(deptId, category)`
  unfoldable pub find_eligible_staff : String → Option Category → Exec S Thrown (List Staff)
  unfolding query_staff category_role_map
  find_eligible_staff dept_id category =
      let config = category_role_map category in
      query_staff dept_id config config.roles >>= λ rows. pure (map to_staff rows)

  -- The repository that the service holds.
  abbrev pub department_repo : DepartmentRepo S
  department_repo = record {
    find_by_id = tables.find_unique;
    find_eligible_staff = find_eligible_staff;
  }
