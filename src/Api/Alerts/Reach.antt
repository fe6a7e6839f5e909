-- ===== src/Api/Alerts/Reach.antt =====
-- Who hears an alert and its retraction.
use mathlib.Core.Path.{subst}
use campusops.Common.{
  ℕ, ◌≡◌, refl, sym, ap, ◌∙◌, arith, String, Bool, true, false, not, ◌&&◌, Option, none, some, List,
  [], str_eq, str_eq_iff, Bool-cases, inl, inr, if◌then◌else◌,
}
use campusops.Common.Exec.{ok}
use campusops.User.{UserRole, Room, dept_room, role_room, campus_room, is_truthy}
use campusops.Incident.{is_role}
use campusops.Commands.Alert.{
  AlertData, Target, room, undefined_dept, undefined_role, resolve_room, in_department,
}
use campusops.Realtime.{
  Channel, base, nameless, SocketUser, Socket, in_channel, SocketClient, ClientMessage,
}
use campusops.Realtime.Rooms.{receive_all-connect, own_room}
use campusops.Api.{status_of, hears_any, socket_after}
use campusops.Api.Alerts.{
  AlertBody, AlertRow, alert_status, AlertClient, alert_data, checked, is_role_given, socket_room,
  dept_channel, role_channel, broadcast_checked, broadcast_alert, retract_found, retract_alert,
}

-- Whether an alert reaches the user: its department or its role are the user's. There is no such
-- rule for an alert to the campus, which reaches nobody.
abbrev pub reached : AlertData → SocketUser → Bool
reached a v =
    if str_eq a.scope_target "DEPARTMENT"
    then elim a.scope_department_id [ none ↦ false | some d ↦ in_department v.department_id d ]
    else if str_eq a.scope_target "ROLE"
    then elim a.scope_role [ none ↦ false | some r ↦ is_role r v.role ]
    else false

-- A department or a role is given where the scope asks for it.
abbrev IsScoped : AlertData → Type 0
IsScoped a =
    ((str_eq a.scope_target "DEPARTMENT" && not (is_truthy a.scope_department_id)) ≡ false)
    × ((str_eq a.scope_target "ROLE" && not (is_role_given a.scope_role)) ≡ false)

checked-IsScoped :
    (b : AlertBody) (a : AlertData) {a' : AlertData} → checked b a ≡ ok a' → IsScoped a × (a' ≡ a)
unfolding checked
checked-IsScoped b a h = ground arith

module _ (v : SocketUser) (k : Socket)
    (rooms : (r : Room) → in_channel k (base r) ≡ own_room v r) where
  room_hears :
      (dep role : Bool) (d : Option String) (r : Option UserRole)
      → (dep && not (is_truthy d)) ≡ false
      → (role && not (is_role_given r)) ≡ false
      → in_channel k
          (if dep then dept_channel d else if role then role_channel r else base campus_room)
        ≡ (if dep
            then elim d [ none ↦ false | some d ↦ in_department v.department_id d ]
            else if role
            then elim r [ none ↦ false | some r ↦ is_role r v.role ]
            else false)
  unfolding dept_channel role_channel
  room_hears true role (some d) r h e = rooms (dept_room d)
  room_hears true role none r h e = cc
  room_hears false true d (some r) h e = rooms (role_room r)
  room_hears false true d none h e = cc
  room_hears false false d r h e = rooms campus_room

  socket_room-reached : (a : AlertData) → IsScoped a → in_channel k (socket_room a) ≡ reached a v
  unfolding socket_room
  socket_room-reached a (h, e) =
      room_hears (str_eq a.scope_target "DEPARTMENT") (str_eq a.scope_target "ROLE")
        a.scope_department_id a.scope_role h e

-- The room that the command `BroadcastAlertCommand` would emit to.
abbrev pub channel_of : Target → Channel
channel_of (room r) = base r
channel_of undefined_dept = nameless
channel_of undefined_role = nameless

given :
    (dep role : Bool) (d : Option String) (r : Option UserRole)
    → (if dep then dept_channel d else if role then role_channel r else base campus_room)
      ≡ channel_of (
          if dep
          then elim d [ none ↦ undefined_dept | some x ↦ room (dept_room x) ]
          else if role
          then elim r [ none ↦ undefined_role | some x ↦ room (role_room x) ]
          else room campus_room)
unfolding dept_channel role_channel
given true role none r = refl
given true role (some d) r = refl
given false true d none = refl
given false true d (some r) = refl
given false false d r = refl

-- The controller and the command send each alert to the same room.
pub socket_room-resolve_room : (a : AlertData) → socket_room a ≡ channel_of (resolve_room a)
unfolding socket_room resolve_room dept_channel role_channel
socket_room-resolve_room a = elim (Bool-cases (str_eq a.scope_target "CAMPUS")) [
  | inl t ↦ rw ((str_eq_iff a.scope_target "CAMPUS").0 t) refl
  | inr f ↦ rw f (
      given (str_eq a.scope_target "DEPARTMENT") (str_eq a.scope_target "ROLE")
        a.scope_department_id a.scope_role)
]

module _ {S : Type 0} (client : AlertClient S) {T : Type 0} (sc : SocketClient T) (now : ℕ)
    (v : SocketUser) (ms : List ClientMessage) (d : T) where
  heard :
      (a : AlertData)
      → IsScoped a
      → in_channel (socket_after sc now v ms d) (socket_room a) ≡ reached a v
  heard a scoped =
      socket_room-reached v (socket_after sc now v ms d)
        (λ r. (receive_all-connect sc now v ms d r).1) a scoped

  -- An alert that passes the checks and is stored is answered with 201, its retraction with 200, and
  -- the same connected users hear of both, whatever messages their clients sent before: those of the
  -- department, or those of the role, and of an alert to the campus none at all.
  pub broadcast_alert-hears :
      (u : SocketUser) (b : AlertBody) (a : AlertData) (s db s₂ s₃ db₂ : S) (row old new : AlertRow)
      (later : ℕ)
      → checked b (alert_data b) ≡ ok a
      → client.create a b.delivery_channels u.id s ≡ (ok row, db)
      → client.find row.id s₂ ≡ (ok (some old), s₃)
      → client.retract row.id later s₃ ≡ (ok new, db₂)
      → new.content ≡ a
      → let (r, t) = broadcast_alert client true u b (record { db = s; emitted = [] }) in
        let (r₂, t₂) = retract_alert client true row.id later (record { db = s₂; emitted = [] }) in
        (status_of alert_status r ≡ 201)
        × (status_of alert_status r₂ ≡ 200)
        × (hears_any (socket_after sc now v ms d) t.emitted ≡ reached a v)
        × (hears_any (socket_after sc now v ms d) t₂.emitted ≡ reached a v)
  unfolding broadcast_alert broadcast_checked retract_alert retract_found
  broadcast_alert-hears u b a s db s₂ s₃ db₂ row old new later good stored found gone same =
      let (scoped, kept) = checked-IsScoped b (alert_data b) good in
      let first = heard a (subst IsScoped (sym kept) scoped) in
      let second = ap (λ x. in_channel (socket_after sc now v ms d) (socket_room x)) same ∙ first in
      (
        rw (good, stored) refl,
        rw (found, gone) refl,
        rw (good, stored) (ground arith),
        rw (found, gone) (ground arith),
      )
