-- ===== src/Api/Departments.antt =====
-- api/controllers/departmentController.js: departments and the strategy that each assigns by.
mod Examples
pub mod Manual
use campusops.Common.{
  ℕ, Bool, not, ◌||◌, String, Option, none, some, List, [], ◌∷◌, any, or_default, str_eq,
  if◌then◌else◌,
}
use campusops.Common.Exec.{Exec, pure, ◌>>=◌}
use campusops.Errors.{Thrown}
use campusops.User.{is_truthy}
use campusops.Strategy.{Department}

pub record DepartmentBody : Type 0 where
  pub name : Option String
  pub code : Option String
  pub assignment_strategy : Option String

pub record NewDepartment : Type 0 where
  pub name : String
  pub code : String
  pub assignment_strategy : String

-- The calls of the database client; `taken` says whether a department has the name or the code.
pub record DepartmentClient (S : Type 0) : Type 0 where
  pub find_many : Exec S Thrown (List Department)
  pub taken : (name code : String) → Exec S Thrown Bool
  pub create : NewDepartment → Exec S Thrown Department
  pub update_strategy : (id strategy : String) → Exec S Thrown Department

pub data DepartmentAnswer : Type 0 where
  name_required conflict invalid_strategy : DepartmentAnswer
  listed : List Department → DepartmentAnswer
  created updated : Department → DepartmentAnswer

-- `res.status(…)`
abbrev pub department_status : DepartmentAnswer → ℕ
department_status name_required = 422
department_status conflict = 409
department_status invalid_strategy = 422
department_status (listed ds) = 200
department_status (created d) = 201
department_status (updated d) = 200

abbrev pub valid_strategies : List String
valid_strategies = "LEAST_LOADED" ∷ "ROUND_ROBIN" ∷ "SHIFT_AWARE" ∷ "MANUAL" ∷ []

abbrev pub is_valid_strategy : Option String → Bool
is_valid_strategy s = any (str_eq (or_default s "")) valid_strategies

unfoldable pub strategy_to_use : Option String → String
strategy_to_use s = if is_valid_strategy s then or_default s "" else "LEAST_LOADED"

module _ {S : Type 0} (client : DepartmentClient S) where
  abbrev pub Handler : Type 0
  Handler = Exec S Thrown DepartmentAnswer

  -- `listDepartments`
  unfoldable pub list_departments : Handler
  list_departments = client.find_many >>= λ ds. pure (listed ds)

  create_new : NewDepartment → Bool → Handler
  create_new d taken =
      if taken then pure conflict else client.create d >>= λ made. pure (created made)

  -- `createDepartment`
  unfoldable pub create_department : DepartmentBody → Handler
  unfolding create_new strategy_to_use
  create_department b =
      let name = or_default b.name "" in
      let code = or_default b.code "" in
      if not (is_truthy b.name) || not (is_truthy b.code)
      then pure name_required
      else client.taken name code
        >>= create_new (record {
          name = name;
          code = code;
          assignment_strategy = strategy_to_use b.assignment_strategy;
        })

  -- `updateStrategy`
  unfoldable pub update_strategy : (id : String) → Option String → Handler
  update_strategy id strategy =
      if not (is_valid_strategy strategy)
      then pure invalid_strategy
      else client.update_strategy id (or_default strategy "") >>= λ d. pure (updated d)
