-- ===== src/Commands/Alert.antt =====
-- domain/commands/BroadcastAlertCommand.js: an alert to a room, and its retraction.
-- `create_alert` and `retract` stand for what `prisma.alert.create` and `prisma.alert.update` do to
-- the database behind the state.
use campusops.Common.{
  ◌≡◌, Bool, true, false, String, Option, none, some, List, [], ◌∷◌, ◌++◌, any, str_eq, arith,
  if◌then◌else◌,
}
use campusops.Common.Exec.{Exec, Result, gets, modify, throw, ◌>>=◌, ◌>>◌}
use campusops.Common.Text.{Text}
use campusops.Errors.{Thrown, plain_error}
use campusops.User.{
  UserRole, Room, user_room, role_room, dept_room, campus_room, User, get_socket_rooms,
}
use campusops.Incident.{is_role}

pub record AlertData : Type 0 where
  pub title : Text
  pub message : Text
  pub type : String
  pub severity : String
  pub scope_target : String
  pub scope_department_id : Option String
  pub scope_role : Option UserRole

-- A room by name; the template of an absent key names a room of its own.
pub data Target : Type 0 where
  room : Room → Target
  undefined_dept undefined_role : Target

target_of : String → Option String → Option UserRole → Target
target_of scope department role =
    if str_eq scope "CAMPUS"
    then room campus_room
    else if str_eq scope "DEPARTMENT"
    then elim department [ none ↦ undefined_dept | some d ↦ room (dept_room d) ]
    else if str_eq scope "ROLE"
    then elim role [ none ↦ undefined_role | some r ↦ room (role_room r) ]
    else room campus_room

-- `_resolveRoom()`
unfoldable pub resolve_room : AlertData → Target
unfolding target_of
resolve_room a = target_of a.scope_target a.scope_department_id a.scope_role

pub data Message : Type 0 where
  campus_alert : (id : String) → AlertData → (created_by_id : String) → Message
  alert_retracted : (alert_id : String) → Message

-- The command object, the messages emitted, and the database.
pub record Desk (S : Type 0) : Type 0 where
  pub db : S
  pub alert_id : Option String
  pub emitted : List (Target × Message)

module _ {S : Type 0} where
  emit : Target → Message → Exec (Desk S) Thrown (Unit {0})
  emit t m = modify (λ (d : Desk S). record d { emitted = d.emitted ++ (t, m) ∷ [] })

  in_db : {A : Type 0} → Result Thrown A × S → Desk S → Result Thrown A × Desk S
  in_db (r, s) d = (r, record d { db = s })

  unfoldable pub execute :
      (create_alert : AlertData → String → Exec S Thrown String)
      → AlertData
      → String
      → Exec (Desk S) Thrown (Unit {0})
  unfolding emit in_db
  execute create_alert a admin_id = do
    id ← λ (d : Desk S). in_db (create_alert a admin_id d.db) d
    modify (λ (d : Desk S). record d { alert_id = some id })
    emit (resolve_room a) (campus_alert id a admin_id)

  retract_known :
      (retract : String → Exec S Thrown (Unit {0}))
      → AlertData
      → Option String
      → Exec (Desk S) Thrown (Unit {0})
  unfolding emit in_db
  retract_known retract a none = throw (plain_error "cannot undo, alertId not set")
  retract_known retract a (some id) = do
    λ (d : Desk S). in_db (retract id d.db) d
    emit (resolve_room a) (alert_retracted id)

  unfoldable pub undo :
      (retract : String → Exec S Thrown (Unit {0})) → AlertData → Exec (Desk S) Thrown (Unit {0})
  unfolding retract_known
  undo retract a = do id ← gets (λ (d : Desk S). d.alert_id); retract_known retract a id

-- Whether a socket of the user is in the target's room.
abbrev pub is_in : Room → Room → Bool
is_in (user_room a) (user_room b) = str_eq a b
is_in (role_room a) (role_room b) = is_role a b
is_in (dept_room a) (dept_room b) = str_eq a b
is_in campus_room campus_room = true
is_in _ _ = false

abbrev pub hears : User → Target → Bool
hears u (room r) = any (is_in r) (get_socket_rooms u)
hears u _ = false

-- The scope that an alert is meant for, of those that the code names.
abbrev pub dept_alert : AlertData → String → AlertData
dept_alert a d = record a { scope_target = "DEPARTMENT"; scope_department_id = some d }

abbrev pub role_alert : AlertData → UserRole → AlertData
role_alert a r = record a { scope_target = "ROLE"; scope_role = some r }

abbrev pub campus_alert_data : AlertData → AlertData
campus_alert_data a = record a { scope_target = "CAMPUS" }

abbrev pub in_department : Option String → String → Bool
in_department none d = false
in_department (some e) d = if str_eq e "" then false else str_eq d e

-- An alert to a department is heard by exactly the users of that department, one to a role by
-- exactly the users of that role, and one to the campus by no user at all, since no socket joins
-- that room.
pub resolve_room-hears :
    (a : AlertData) (u : User)
    → ((d : String) → hears u (resolve_room (dept_alert a d)) ≡ in_department u.department_id d)
      × ((r : UserRole) → hears u (resolve_room (role_alert a r)) ≡ is_role r u.role)
      × (hears u (resolve_room (campus_alert_data a)) ≡ false)
unfolding resolve_room get_socket_rooms
resolve_room-hears a u = (λ d. ground arith, λ r. ground arith, ground arith)
