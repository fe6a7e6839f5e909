-- ===== src/Api/Users.antt =====
-- api/controllers/userController.js: profiles, the list of users, and the state of staff.
mod Examples
pub mod Suspension
use campusops.Common.{
  ℕ, ◌-◌, ◌*◌, Bool, true, false, not, ◌&&◌, String, Option, none, some, List, map, or_default,
  str_eq, if◌then◌else◌,
}
use campusops.Common.Exec.{Exec, pure, ◌>>=◌, ◌>>◌}
use campusops.Common.Int.{ℤ, pos, decr, times, pos_part}
use campusops.Common.Text.{Text, or_null}
use campusops.Errors.{Thrown}
use campusops.User.{
  UserRole, maintenance, security, admin, StaffState, active, under_review, suspended,
  NotificationPreferences,
}
use campusops.Incident.{is_role}
use campusops.Realtime.{SocketUser}
use campusops.Api.Paging.{page_num, limit_num}

-- What an answer shows of a user.
pub record SafeUser : Type 0 where
  pub id : String
  pub name : String
  pub email : String
  pub phone : Option String
  pub role : UserRole
  pub department_id : Option String
  pub is_active : Bool
  pub staff_state : Option StaffState
  pub active_task_count : ℤ
  pub penalty_count : ℕ
  pub prefs : NotificationPreferences

-- A row, with the fields that no answer may show.
pub record UserRow : Type 0 where
  pub safe : SafeUser
  pub password_hash : String
  pub failed_login_count : Option ℕ
  pub locked_until : Option ℕ

-- The preferences in a body: `none` for one that is not there.
pub record PrefChanges : Type 0 where
  pub realtime : Option Bool
  pub email : Option Bool
  pub sms : Option Bool

pub record ProfileBody : Type 0 where
  pub name : Option String
  pub phone : Option String
  -- `notificationPrefs`, where it is an object
  pub notification_prefs : Option PrefChanges
  pub own_prefs : PrefChanges

-- The data of the update.
pub record ProfileData : Type 0 where
  pub name : Option String
  pub phone : Option String
  pub prefs : PrefChanges

pub record UserFilters : Type 0 where
  pub role : Option String
  pub department_id : Option String
  pub staff_state : Option String
  pub search : Option String

pub record UserQuery : Type 0 where
  pub filters : UserFilters
  pub page : Option Text
  pub limit : Option Text

-- The calls of the database client.
pub record UserClient (S : Type 0) : Type 0 where
  pub find : String → Exec S Thrown (Option UserRow)
  pub update_profile : String → ProfileData → Exec S Thrown UserRow
  pub update_staff_state : String → StaffState → Exec S Thrown UserRow
  pub count : UserFilters → Exec S Thrown ℕ
  pub find_many : UserFilters → (skip take : ℤ) → Exec S Thrown (List UserRow)

pub data UserAnswer : Type 0 where
  user_not_found forbidden invalid_staff_state invalid_operation : UserAnswer
  profile : SafeUser → UserAnswer
  listed : List SafeUser → (total : ℕ) → (page limit : ℤ) → UserAnswer

-- `res.status(…)`
abbrev pub user_status : UserAnswer → ℕ
user_status user_not_found = 404
user_status forbidden = 403
user_status invalid_staff_state = 422
user_status invalid_operation = 422
user_status (profile u) = 200
user_status (listed us total page limit) = 200

unfoldable pub profile_data : ProfileBody → ProfileData
profile_data b = record {
  name = b.name;
  phone = b.phone;
  prefs = or_default b.notification_prefs b.own_prefs;
}

unfoldable pub build_where : UserFilters → UserFilters
build_where f = record {
  role = or_null f.role;
  department_id = or_null f.department_id;
  staff_state = or_null f.staff_state;
  search = or_null f.search;
}

-- `['ACTIVE', 'UNDER_REVIEW', 'SUSPENDED'].includes(staffState)`
unfoldable pub read_staff_state : String → Option StaffState
read_staff_state s =
    if str_eq s "ACTIVE"
    then some active
    else if str_eq s "UNDER_REVIEW"
    then some under_review
    else if str_eq s "SUSPENDED"
    then some suspended
    else none

module _ {S : Type 0} (client : UserClient S) where
  abbrev pub Handler : Type 0
  Handler = Exec S Thrown UserAnswer

  shown : Option UserRow → Handler
  shown none = pure user_not_found
  shown (some row) = pure (profile row.safe)

  -- `getMe`
  unfoldable pub get_me : SocketUser → Handler
  unfolding shown
  get_me u = client.find u.id >>= shown

  -- `updateMe`
  unfoldable pub update_me : SocketUser → ProfileBody → Handler
  unfolding profile_data
  update_me u b = client.update_profile u.id (profile_data b) >>= λ row. pure (profile row.safe)

  -- `listUsers`
  unfoldable pub list_users : SocketUser → UserQuery → Handler
  unfolding build_where
  list_users u q =
      let page = page_num q.page in
      let limit = limit_num q.limit in
      if not (is_role u.role admin)
      then pure forbidden
      else client.count (build_where q.filters) >>= λ total.
          client.find_many (build_where q.filters) (times (pos_part (decr page)) limit) limit
          >>= λ rows. pure (listed (map (λ (r : UserRow). r.safe) rows) total page limit)

  unfoldable pub state_found : String → StaffState → Option UserRow → Handler
  state_found id state none = pure user_not_found
  state_found id state (some row) =
      if not (is_role row.safe.role maintenance) && not (is_role row.safe.role security)
      then pure invalid_operation
      else client.update_staff_state id state >>= λ updated. pure (profile updated.safe)

  state_given : String → Option StaffState → Handler
  unfolding state_found
  state_given id none = pure invalid_staff_state
  state_given id (some state) = client.find id >>= state_found id state

  -- `updateStaffState`
  unfoldable pub update_staff_state : SocketUser → (id state : String) → Handler
  unfolding state_given read_staff_state
  update_staff_state u id state =
      if not (is_role u.role admin) then pure forbidden else state_given id (read_staff_state state)
