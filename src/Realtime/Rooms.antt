-- ===== src/Realtime/Rooms.antt =====
-- Which rooms a socket hears, whatever its client sends.
use campusops.Common.{
  ℕ, ◌≡◌, refl, ap, ◌∙◌, inl, inr, arith, String, Bool, true, false, not, ◌||◌, Option, none, some,
  List, [], ◌∷◌, ◌++◌, any, filter, str_eq, Bool-cases,
}
use campusops.Common.Exec.{Result, ok, err}
use campusops.Errors.{Thrown}
use campusops.User.{UserRole, Room, user_room, role_room, dept_room, campus_room}
use campusops.Incident.{is_role}
use campusops.Commands.Alert.{in_department}
use campusops.Realtime.{
  Channel, base, incident_room, chat_room, nameless, same_channel, SocketUser, Socket, in_channel,
  join, leave, connect, join_department, SlaColumns, SocketClient, Session, attempt, move_to,
  tell_sla, acknowledged, may_acknowledge, ClientMessage, join_incident, leave_incident, join_chat,
  leave_chat, check_sla, panic_acknowledge, typing, stop_typing, receive, receive_all,
}

any-append_one :
    (c d : Channel) (xs : List Channel)
    → any (same_channel c) (xs ++ d ∷ []) ≡ (any (same_channel c) xs || same_channel c d)
any-append_one c d [] = ground arith
any-append_one c d (x ∷ xs) = let rest = any-append_one c d xs in ground arith

-- A channel that the predicate keeps wherever it stands is heard after the filter as before.
any-filter_kept :
    (c : Channel) (keep : Channel → Bool) (xs : List Channel)
    → ((d : Channel) → same_channel c d ≡ true → keep d ≡ true)
    → any (same_channel c) (filter keep xs) ≡ any (same_channel c) xs
any-filter_kept c keep [] h = refl
any-filter_kept c keep (x ∷ xs) h = elim (Bool-cases (keep x)) [
  | inl k ↦ rw k (ap (λ b. same_channel c x || b) (any-filter_kept c keep xs h))
  | inr k ↦ elim (Bool-cases (same_channel c x)) [
    | inl t ↦ let k' = h x t in cc
    | inr f ↦ rw (k, f) (any-filter_kept c keep xs h)
  ]
]

-- The rooms that a client may ask for: those of an incident or a chat.
abbrev is_local : Channel → Bool
is_local (base r) = false
is_local _ = true

base_or_local :
    (r : Room) (c : Channel)
    → is_local c ≡ true
    → (same_channel (base r) c ≡ false)
      × ((d : Channel) → same_channel (base r) d ≡ true → same_channel c d ≡ false)
unfolding same_channel
base_or_local r (base q) h = cc
base_or_local r (incident_room a) h = (
  refl,
  λ d e.
      elim d as (λ d. same_channel (base r) d ≡ true → same_channel (incident_room a) d ≡ false) [
        | base q ↦ λ e. refl
        | incident_room b ↦ λ e. cc
        | chat_room b ↦ λ e. refl
        | nameless ↦ λ e. refl
      ]
        e,
)
base_or_local r (chat_room a) h = (
  refl,
  λ d e.
      elim d as (λ d. same_channel (base r) d ≡ true → same_channel (chat_room a) d ≡ false) [
        | base q ↦ λ e. refl
        | incident_room b ↦ λ e. refl
        | chat_room b ↦ λ e. cc
        | nameless ↦ λ e. refl
      ]
        e,
)
base_or_local r nameless h = (
  refl,
  λ d e.
      elim d as (λ d. same_channel (base r) d ≡ true → same_channel nameless d ≡ false) [
        | base q ↦ λ e. refl
        | incident_room b ↦ λ e. refl
        | chat_room b ↦ λ e. refl
        | nameless ↦ λ e. cc
      ]
        e,
)

module _ (r : Room) (c : Channel) (local : is_local c ≡ true) (s : Socket) where
  join_base : in_channel (join c s) (base r) ≡ in_channel s (base r)
  unfolding join
  join_base = elim (Bool-cases (in_channel s c)) [
    | inl t ↦ rw t refl
    | inr f ↦ rw (f, any-append_one (base r) c s.rooms, (base_or_local r c local).0) (ground arith)
  ]

  leave_base : in_channel (leave c s) (base r) ≡ in_channel s (base r)
  unfolding leave
  leave_base =
      any-filter_kept (base r) (λ d. not (same_channel c d)) s.rooms
        λ d h. rw ((base_or_local r c local).1 d h) refl

module _ {S : Type 0} where
  -- What every message of a client leaves as it is: who the user is, and the rooms of `User.js`.
  pub record Keeps (s t : Session S) : Type 0 where
    pub user : t.socket.user ≡ s.socket.user
    pub rooms : (r : Room) → in_channel t.socket (base r) ≡ in_channel s.socket (base r)

  same_socket : (s t : Session S) → t.socket ≡ s.socket → Keeps s t
  same_socket s t e = record {
    user = ap (λ k. k.user) e;
    rooms = λ r. ap (λ k. in_channel k (base r)) e;
  }

  joined :
      (c : Channel) (s : Session S)
      → is_local c ≡ true
      → Keeps s (record s { socket = join c s.socket })
  unfolding join
  joined c s h = record { user = ground arith; rooms = λ r. join_base r c h s.socket }

  left :
      (c : Channel) (s : Session S)
      → is_local c ≡ true
      → Keeps s (record s { socket = leave c s.socket })
  unfolding leave
  left c s h = record { user = refl; rooms = λ r. leave_base r c h s.socket }

  attempt-Keeps :
      {A : Type 0} (f : A → Session S → Session S) (o : Result Thrown A × S) (s : Session S)
      → ((a : A) (db : S) → Keeps s (f a (record s { db = db })))
      → Keeps s (attempt f o s)
  attempt-Keeps f (ok a, t) s h = h a t
  attempt-Keeps f (err e, t) s h = same_socket s _ refl

  move_to-Keeps :
      (o : Option String) (db : S) (s : Session S)
      → Keeps s (move_to join o (record s { db = db }))
        × Keeps s (move_to leave o (record s { db = db }))
  unfolding move_to
  move_to-Keeps none db s = (same_socket s _ refl, same_socket s _ refl)
  move_to-Keeps (some x) db s =
      let j = joined (chat_room x) s refl in
      let l = left (chat_room x) s refl in
      (record { user = j.user; rooms = j.rooms }, record { user = l.user; rooms = l.rooms })

module _ {S : Type 0} (client : SocketClient S) (now : ℕ) where
  receive-Keeps : (m : ClientMessage) (s : Session S) → Keeps s (receive client now m s)
  unfolding receive
  receive-Keeps (join_incident id) s = joined (incident_room id) s refl
  receive-Keeps (leave_incident id) s = left (incident_room id) s refl
  receive-Keeps (join_chat id) s =
      attempt-Keeps (move_to join) (client.find_chat_room id s.db) s
        λ o db. (move_to-Keeps o db s).0
  receive-Keeps (leave_chat id) s =
      attempt-Keeps (move_to leave) (client.find_chat_room id s.db) s
        λ o db. (move_to-Keeps o db s).1
  receive-Keeps (check_sla id) s =
      attempt-Keeps (tell_sla now id) (client.find_sla id s.db) s λ o db. told o db
    where
      told : (o : Option SlaColumns) (db : S) → Keeps s (tell_sla now id o (record s { db = db }))
      told none db = same_socket s _ refl
      told (some c) db = same_socket s _ refl
  receive-Keeps (typing room) s = same_socket s _ refl
  receive-Keeps (stop_typing room) s = same_socket s _ refl
  receive-Keeps (panic_acknowledge id) s = elim (Bool-cases (may_acknowledge s.socket.user.role)) [
    | inl t ↦ rw t (attempt-Keeps (acknowledged client now id) (client.find_creator id s.db) s said)
    | inr f ↦ rw f (same_socket s _ refl)
  ]
    where
      said :
          (o : Option String) (db : S)
          → Keeps s (acknowledged client now id o (record s { db = db }))
      said none db = same_socket s _ refl
      said (some c) db = same_socket s _ refl

  receive_all-Keeps :
      (ms : List ClientMessage) (s : Session S) → Keeps s (receive_all client now ms s)
  unfolding receive_all
  receive_all-Keeps [] s = same_socket s s refl
  receive_all-Keeps (m ∷ ms) s =
      let k = receive-Keeps m s in
      let l = receive_all-Keeps ms (receive client now m s) in
      record { user = l.user ∙ k.user; rooms = λ r. l.rooms r ∙ k.rooms r }

-- The rooms of `User.js` that a socket is in from its connection on.
abbrev pub own_room : SocketUser → Room → Bool
own_room u (user_room id) = str_eq id u.id
own_room u (role_room r) = is_role r u.role
own_room u (dept_room d) = in_department u.department_id d
own_room u campus_room = false

entered :
    (o : Option String) (id : String) (role : UserRole) (s : Socket) (r : Room)
    → s.rooms ≡ base (user_room id) ∷ base (role_room role) ∷ []
    → in_channel (join_department o s) (base r)
      ≡ own_room (record { id = id; name = ""; role = role; department_id = o }) r
unfolding join_department join same_channel
entered none id role s (user_room x) h = rw h (ground arith)
entered none id role s (role_room x) h = rw h (ground arith)
entered none id role s (dept_room x) h = rw h refl
entered none id role s campus_room h = rw h refl
entered (some d) id role s (user_room x) h = rw h (ground arith)
entered (some d) id role s (role_room x) h = rw h (ground arith)
entered (some d) id role s (dept_room x) h = rw h (ground arith)
entered (some d) id role s campus_room h = rw h (ground arith)

same_own :
    (u v : SocketUser) (r : Room)
    → u.id ≡ v.id
    → u.role ≡ v.role
    → u.department_id ≡ v.department_id
    → own_room u r ≡ own_room v r
same_own u v (user_room x) i o d = rw i refl
same_own u v (role_room x) i o d = rw o refl
same_own u v (dept_room x) i o d = rw d refl
same_own u v campus_room i o d = refl

entered_user : (o : Option String) (s : Socket) → (join_department o s).user ≡ s.user
unfolding join_department join
entered_user none s = refl
entered_user (some d) s = ground arith

pub connect_rooms : (u : SocketUser) (r : Room) → in_channel (connect u) (base r) ≡ own_room u r
unfolding connect join same_channel
connect_rooms u r =
    entered u.department_id u.id u.role
      (record { user = u; rooms = base (user_room u.id) ∷ base (role_room u.role) ∷ [] }) r refl
    ∙ same_own (record { id = u.id; name = ""; role = u.role; department_id = u.department_id }) u r
        refl refl refl

-- Whatever messages its client sends, a connected socket stays in the room of its user, of its role
-- and of its department, enters no such room of others, and is never in the room of the campus.
pub receive_all-connect :
    {S : Type 0} (client : SocketClient S) (now : ℕ) (u : SocketUser) (ms : List ClientMessage)
    (db : S) (r : Room)
    → let t = receive_all client now ms (record { socket = connect u; db = db; sent = [] }) in
      (t.socket.user ≡ u) × (in_channel t.socket (base r) ≡ own_room u r)
unfolding connect join same_channel
receive_all-connect client now u ms db r =
    let k = receive_all-Keeps client now ms (record { socket = connect u; db = db; sent = [] }) in
    (
      k.user
          ∙ entered_user u.department_id
              (record { user = u; rooms = base (user_room u.id) ∷ base (role_room u.role) ∷ [] }),
      k.rooms r ∙ connect_rooms u r,
    )
