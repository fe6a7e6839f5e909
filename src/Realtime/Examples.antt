-- ===== src/Realtime/Examples.antt =====
-- The theorem on rooms at a concrete session: a student who opens an incident and its chat.
use campusops.Common.{ℕ, ◌≡◌, some, none, List, [], ◌∷◌}
use campusops.Common.Exec.{ok}
use campusops.User.{student, security, role_room}
use campusops.Realtime.{
  base, SocketUser, SocketClient, ClientMessage, join_incident, join_chat, panic_acknowledge,
  connect, in_channel, receive_all,
}
use campusops.Realtime.Rooms.{own_room, receive_all-connect}

abbrev asha : SocketUser
asha = record { id = "U1"; name = "Asha"; role = student; department_id = some "D1" }

abbrev one_room : SocketClient ℕ
one_room = record {
  find_chat_room = λ id s. (ok (some "R1"), s);
  find_sla = λ id s. (ok none, s);
  find_creator = λ id s. (ok (some "U1"), s);
  create_ack = λ i o t s. (ok tt, s);
}

abbrev visit : List ClientMessage
visit = join_incident "I1" ∷ join_chat "I1" ∷ panic_acknowledge "I1" ∷ []

receive_all-connect_example :
    let t = receive_all one_room 5 visit (record { socket = connect asha; db = 0; sent = [] }) in
    (t.socket.user ≡ asha)
    × (in_channel t.socket (base (role_room security)) ≡ own_room asha (role_room security))
receive_all-connect_example = receive_all-connect one_room 5 asha visit 0 (role_room security)
