-- ===== src/Realtime.antt =====
-- index.js (the connection handler of Socket.IO) and realtime/handlers: the rooms that a socket is
-- in, and what each message of a client does. What is sent is a value; `S` is the state behind the
-- database client.
pub mod Rooms
mod Examples
use campusops.Common.{
  ℕ, ◌-◌, String, Bool, true, false, not, ◌&&◌, Option, none, some, List, [], ◌∷◌, ◌++◌, any,
  filter, str_eq, ltb, map, if◌then◌else◌,
}
use campusops.Common.Exec.{Exec, Result, ok, err}
use campusops.Errors.{Thrown}
use campusops.User.{
  UserRole, security, admin, Room, user_room, role_room, dept_room, campus_room, is_truthy,
}
use campusops.Incident.{is_role}
use campusops.Commands.Alert.{is_in}

-- A Socket.IO room: one of those that User.js names, one of an incident or of a chat, or one whose
-- name was made of a key that is missing.
pub data Channel : Type 0 where
  base : Room → Channel
  incident_room chat_room : String → Channel
  nameless : Channel

unfoldable pub same_channel : Channel → Channel → Bool
same_channel (base r) (base r') = is_in r r'
same_channel (incident_room a) (incident_room b) = str_eq a b
same_channel (chat_room a) (chat_room b) = str_eq a b
same_channel nameless nameless = true
same_channel _ _ = false

-- `socket.user`, the payload of the token.
pub record SocketUser : Type 0 where
  pub id : String
  pub name : String
  pub role : UserRole
  pub department_id : Option String

pub record Socket : Type 0 where
  pub user : SocketUser
  pub rooms : List Channel

-- Whether the socket hears what is sent to the channel.
abbrev pub in_channel : Socket → Channel → Bool
in_channel s c = any (same_channel c) s.rooms

-- `socket.join(c)`: the rooms of a socket are a set.
unfoldable pub join : Channel → Socket → Socket
join c s = if in_channel s c then s else record s { rooms = s.rooms ++ c ∷ [] }

-- `socket.leave(c)`
unfoldable pub leave : Channel → Socket → Socket
leave c s = record s { rooms = filter (λ d. not (same_channel c d)) s.rooms }

join_department : Option String → Socket → Socket
unfolding join
join_department none s = s
join_department (some d) s = if str_eq d "" then s else join (base (dept_room d)) s

-- `io.on('connection', …)`
unfoldable pub connect : SocketUser → Socket
unfolding join join_department
connect u = join_department u.department_id (
    join (base (role_room u.role)) (join (base (user_room u.id)) (record { user = u; rooms = [] })))

-- The columns that `check_sla` selects.
pub record SlaColumns : Type 0 where
  pub sla_deadline_at : Option ℕ
  pub sla_is_escalated : Bool

-- The calls of the database client.
pub record SocketClient (S : Type 0) : Type 0 where
  pub find_chat_room : String → Exec S Thrown (Option String)
  pub find_sla : String → Exec S Thrown (Option SlaColumns)
  pub find_creator : String → Exec S Thrown (Option String)
  pub create_ack : (incident officer : String) → ℕ → Exec S Thrown (Unit {0})

pub record SlaStatus : Type 0 where
  pub incident_id : String
  pub is_breached : Option Bool
  pub remaining_ms : Option ℕ
  pub deadline : Option ℕ
  pub is_escalated : Bool

pub data Notice : Type 0 where
  chat_typing : (user_id user_name chat_room_id : String) → Notice
  chat_stop_typing : (user_id chat_room_id : String) → Notice
  sla_status : SlaStatus → Notice
  unauthorized : Notice
  panic_acknowledged : (incident_id officer_name officer_id : String) → ℕ → Notice
  panic_response_dispatched : (incident_id officer_name officer_id : String) → Notice

-- Where a notice goes: `io.to(c)`, `socket.to(c)` which leaves the sender out, or `socket`.
pub data Audience : Type 0 where
  to_all to_others : Channel → Audience
  to_self : Audience

-- What a handler works on: the socket of the client, the database, and what was sent so far.
pub record Session (S : Type 0) : Type 0 where
  pub socket : Socket
  pub db : S
  pub sent : List (Audience × Notice)

pub data ClientMessage : Type 0 where
  join_incident leave_incident join_chat leave_chat check_sla panic_acknowledge :
      String → ClientMessage
  typing stop_typing : (chat_room_id : String) → ClientMessage

unfoldable pub sla_notice : ℕ → String → SlaColumns → Notice
sla_notice now id c = sla_status record {
  incident_id = id;
  is_breached = elim c.sla_deadline_at [ none ↦ none | some d ↦ some (ltb d now) ];
  remaining_ms = elim c.sla_deadline_at [ none ↦ none | some d ↦ some (d - now) ];
  deadline = c.sla_deadline_at;
  is_escalated = c.sla_is_escalated;
}

-- `role !== 'SECURITY' && role !== 'ADMIN'` turns a client away.
unfoldable pub may_acknowledge : UserRole → Bool
may_acknowledge security = true
may_acknowledge admin = true
may_acknowledge _ = false

module _ {S : Type 0} where
  abbrev pub send : Audience → Notice → Session S → Session S
  send a n s = record s { sent = s.sent ++ (a, n) ∷ [] }

  -- A call of the client in a `try` whose `catch` only logs: what is done with a result.
  abbrev pub attempt :
      {A : Type 0} → (A → Session S → Session S) → Result Thrown A × S → Session S → Session S
  attempt f (ok a, t) s = f a (record s { db = t })
  attempt f (err e, t) s = record s { db = t }

  move_to : (Channel → Socket → Socket) → Option String → Session S → Session S
  move_to move none s = s
  move_to move (some r) s = record s { socket = move (chat_room r) s.socket }

  tell_sla : ℕ → String → Option SlaColumns → Session S → Session S
  unfolding sla_notice
  tell_sla now id none s = s
  tell_sla now id (some c) s = send to_self (sla_notice now id c) s

module _ {S : Type 0} (client : SocketClient S) (now : ℕ) where
  -- What follows the look-up in `panic_acknowledge`: an error of `create` is swallowed.
  unfoldable pub acknowledged : String → Option String → Session S → Session S
  acknowledged id none s = s
  acknowledged id (some creator) s =
      let u = s.socket.user in
      let t = (client.create_ack id u.id now s.db).1 in
      send (to_all (base (role_room security))) (panic_response_dispatched id u.name u.id) (
        send (to_all (base (user_room creator))) (panic_acknowledged id u.name u.id now)
          (record s { db = t }))

  -- The handlers of one message from the client.
  unfoldable pub receive : ClientMessage → Session S → Session S
  unfolding join leave move_to tell_sla acknowledged may_acknowledge
  receive (join_incident id) s = record s { socket = join (incident_room id) s.socket }
  receive (leave_incident id) s = record s { socket = leave (incident_room id) s.socket }
  receive (join_chat id) s = attempt (move_to join) (client.find_chat_room id s.db) s
  receive (leave_chat id) s = attempt (move_to leave) (client.find_chat_room id s.db) s
  receive (check_sla id) s = attempt (tell_sla now id) (client.find_sla id s.db) s
  receive (typing room) s =
      send (to_others (chat_room room)) (chat_typing s.socket.user.id s.socket.user.name room) s
  receive (stop_typing room) s =
      send (to_others (chat_room room)) (chat_stop_typing s.socket.user.id room) s
  receive (panic_acknowledge id) s =
      if may_acknowledge s.socket.user.role
      then attempt (acknowledged id) (client.find_creator id s.db) s
      else send to_self unauthorized s

  unfoldable pub receive_all : List ClientMessage → Session S → Session S
  unfolding receive
  receive_all [] s = s
  receive_all (m ∷ ms) s = receive_all ms (receive m s)
