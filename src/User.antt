-- ===== src/User.antt =====
-- domain/entities/User.js: the user classes, what each may do, and the rooms a socket joins.
pub mod Shift
use campusops.Common.{
  ℕ, String, ◌≡◌, Bool, true, false, Option, none, some, List, [], ◌∷◌, ◌++◌, not, str_eq,
  if◌then◌else◌,
}
use campusops.Common.Int.{ℤ}
use campusops.Common.Text.{Text}

pub data UserRole : Type 0 where
  student faculty maintenance security admin : UserRole

pub data StaffState : Type 0 where
  active under_review suspended : StaffState

pub data AdminLevel : Type 0 where
  hod dean superadmin : AdminLevel

pub record NotificationPreferences : Type 0 where
  pub realtime : Bool
  pub email : Bool
  pub sms : Bool

-- The defaults of the constructor.
abbrev pub default_preferences : NotificationPreferences
default_preferences = record { realtime = true; email = true; sms = false }

-- The fields of the base class, but the password hash, which nothing here reads.
pub record User : Type 0 where
  pub id : String
  pub name : String
  pub email : String
  pub role : UserRole
  pub department_id : Option String
  pub is_active : Bool
  pub notification_prefs : NotificationPreferences

-- `[STUDENT, FACULTY, ADMIN].includes(role)`
unfoldable pub can_report_incident : UserRole → Bool
can_report_incident student = true
can_report_incident faculty = true
can_report_incident admin = true
can_report_incident _ = false

unfoldable pub can_view_dashboard : UserRole → Bool
can_view_dashboard faculty = true
can_view_dashboard maintenance = true
can_view_dashboard security = true
can_view_dashboard admin = true
can_view_dashboard _ = false

unfoldable pub can_assign_incidents : UserRole → Bool
can_assign_incidents admin = true
can_assign_incidents _ = false

-- A Socket.IO room; the code builds its name from the prefix and the key.
pub data Room : Type 0 where
  user_room : String → Room
  role_room : UserRole → Room
  dept_room : String → Room
  campus_room : Room

-- `if (id)` on a nullable string
abbrev pub is_truthy : Option String → Bool
is_truthy none = false
is_truthy (some s) = not (str_eq s "")

dept_rooms : Option String → List Room
dept_rooms none = []
dept_rooms (some d) = if str_eq d "" then [] else dept_room d ∷ []

unfoldable pub get_socket_rooms : User → List Room
unfolding dept_rooms
get_socket_rooms u = user_room u.id ∷ role_room u.role ∷ dept_rooms u.department_id

-- Which class a staff object has: only `MaintenanceStaff` has the shift methods, and the object
-- that the incident repository attaches to an incident is of no class.
pub data StaffClass : Type 0 where
  maintenance_staff security_officer plain_object : StaffClass

-- The staff members, of either class: the fields that assignment reads and writes.
pub record Staff : Type 0 where
  pub class : StaffClass
  pub id : String
  pub role : UserRole
  pub department_id : Option String
  pub active_task_count : ℤ
  pub staff_state : StaffState
  pub penalty_count : ℕ
  pub shift_days : List Text
  pub shift_start : Option Text
  pub shift_end : Option Text

abbrev pub is_active : StaffState → Bool
is_active active = true
is_active _ = false

abbrev pub is_suspended : StaffState → Bool
is_suspended suspended = true
is_suspended _ = false
