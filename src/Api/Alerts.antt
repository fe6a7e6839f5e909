-- ===== src/Api/Alerts.antt =====
-- api/controllers/alertController.js: alerts to the campus, to a department or to a role. A role that
-- the database does not know makes its client throw; `scope_role` is one that it knows.
pub mod Listing
pub mod Reach
use campusops.Common.{
  ℕ, Bool, true, false, not, ◌&&◌, ◌||◌, String, Option, none, some, List, [], ◌∷◌, any, or_default,
  str_eq, if◌then◌else◌,
}
use campusops.Common.Exec.{Exec, Result, ok, err, pure, ◌>>=◌, ◌>>◌}
use campusops.Common.Text.{Text, is_empty, or_null}
use campusops.Errors.{Thrown}
use campusops.User.{UserRole, dept_room, role_room, campus_room, is_truthy}
use campusops.Commands.Alert.{AlertData}
use campusops.Realtime.{Channel, base, nameless, SocketUser}
use campusops.Api.{Server, call, announce}

pub record AlertBody : Type 0 where
  pub title : Option Text
  pub message : Option Text
  pub type : Option String
  pub severity : Option String
  pub scope_target : Option String
  pub scope_department_id : Option String
  pub scope_role : Option UserRole
  pub delivery_channels : List String

pub record AlertRow : Type 0 where
  pub id : String
  pub content : AlertData
  pub delivery_channels : List String
  pub created_by_id : String
  pub retracted_at : Option ℕ

pub data AlertNotice : Type 0 where
  campus_alert : AlertRow → AlertNotice
  alert_retracted : (alert_id : String) → AlertNotice

pub data AlertAnswer : Type 0 where
  missing_fields invalid_type invalid_severity invalid_scope_target : AlertAnswer
  department_required role_required alert_not_found : AlertAnswer
  created retracted : AlertRow → AlertAnswer

-- `res.status(…)`
abbrev pub alert_status : AlertAnswer → ℕ
alert_status (created r) = 201
alert_status (retracted r) = 200
alert_status alert_not_found = 404
alert_status _ = 422

-- The calls of the database client.
pub record AlertClient (S : Type 0) : Type 0 where
  pub create : AlertData → List String → (created_by : String) → Exec S Thrown AlertRow
  pub find : String → Exec S Thrown (Option AlertRow)
  pub retract : String → ℕ → Exec S Thrown AlertRow

abbrev valid_types : List String
valid_types = "EMERGENCY" ∷ "ANNOUNCEMENT" ∷ "MAINTENANCE_SHUTDOWN" ∷ []

abbrev valid_severities : List String
valid_severities = "INFO" ∷ "WARNING" ∷ "CRITICAL" ∷ []

abbrev valid_scope_targets : List String
valid_scope_targets = "CAMPUS" ∷ "DEPARTMENT" ∷ "ROLE" ∷ []

-- `!s`
abbrev is_missing : Option Text → Bool
is_missing none = true
is_missing (some s) = is_empty s

abbrev is_role_given : Option UserRole → Bool
is_role_given none = false
is_role_given (some r) = true

abbrev pub alert_data : AlertBody → AlertData
alert_data b = record {
  title = or_default b.title [];
  message = or_default b.message [];
  type = or_default b.type "";
  severity = or_default b.severity "";
  scope_target = or_default b.scope_target "";
  scope_department_id = b.scope_department_id;
  scope_role = b.scope_role;
}

-- The validation of a body: the answer to a bad one, or the data of the alert.
unfoldable pub checked : AlertBody → AlertData → Result AlertAnswer AlertData
checked b a =
    if is_missing b.title
      || is_missing b.message
      || not (is_truthy b.type)
      || not (is_truthy b.severity)
      || not (is_truthy b.scope_target)
    then err missing_fields
    else if not (any (str_eq a.type) valid_types)
    then err invalid_type
    else if not (any (str_eq a.severity) valid_severities)
    then err invalid_severity
    else if not (any (str_eq a.scope_target) valid_scope_targets)
    then err invalid_scope_target
    else if str_eq a.scope_target "DEPARTMENT" && not (is_truthy a.scope_department_id)
    then err department_required
    else if str_eq a.scope_target "ROLE" && not (is_role_given a.scope_role)
    then err role_required
    else ok a

dept_channel : Option String → Channel
dept_channel none = nameless
dept_channel (some d) = base (dept_room d)

role_channel : Option UserRole → Channel
role_channel none = nameless
role_channel (some r) = base (role_room r)

-- `socketRoom`
unfoldable pub socket_room : AlertData → Channel
unfolding dept_channel role_channel
socket_room a =
    if str_eq a.scope_target "DEPARTMENT"
    then dept_channel a.scope_department_id
    else if str_eq a.scope_target "ROLE"
    then role_channel a.scope_role
    else base campus_room

module _ {S : Type 0} (client : AlertClient S) (io : Bool) where
  abbrev pub Handler : Type 0
  Handler = Exec (Server S AlertNotice) Thrown AlertAnswer

  unfoldable pub broadcast_checked :
      SocketUser → List String → Result AlertAnswer AlertData → Handler
  unfolding socket_room
  broadcast_checked u channels (err e) = pure e
  broadcast_checked u channels (ok a) = do
    row ← call (client.create a channels u.id)
    announce io (socket_room a) (campus_alert row)
    pure (created row)

  -- `broadcastAlert`
  unfoldable pub broadcast_alert : SocketUser → AlertBody → Handler
  unfolding broadcast_checked checked
  broadcast_alert u b = broadcast_checked u b.delivery_channels (checked b (alert_data b))

  unfoldable pub retract_found : String → ℕ → Option AlertRow → Handler
  unfolding socket_room
  retract_found id now none = pure alert_not_found
  retract_found id now (some old) = do
    row ← call (client.retract id now)
    announce io (socket_room row.content) (alert_retracted row.id)
    pure (retracted row)

  -- `retractAlert`
  unfoldable pub retract_alert : String → ℕ → Handler
  unfolding retract_found
  retract_alert id now = call (client.find id) >>= retract_found id now
