-- ===== src/Observers/Audience.antt =====
-- Who hears what an event emits, and who gets a mail.
use campusops.Common.{
  sym, ap, ◌∙◌, ◌∷◌, ◌++◌, map, str_eq_iff, ◌≡◌, refl, inl, inr, arith, String, Bool, true, false,
  ◌||◌, Option, none, some, List, [], any, str_eq, if◌then◌else◌, Bool-cases,
}
use campusops.User.{Room, user_room, dept_room, role_room, admin}
use campusops.Realtime.{SocketUser, base, connect, in_channel}
use campusops.Realtime.Rooms.{connect_rooms}
use campusops.Incident.{Incident, is_role}
use campusops.Commands.Alert.{in_department}
use campusops.Observers.{
  Update, build_payload, Contact, Payload, Emission, chain, notify_sockets, socket_event, email_to,
  get_recipient, address_of, room_of, rooms_of, emit_to,
}

-- Whether some emission is to a room that the user's socket is in once it has connected.
abbrev pub reaches : SocketUser → List Emission → Bool
reaches u es = any (λ (e : Emission). in_channel (connect u) (base e.room)) es

abbrev pub is_key : String → Option String → Bool
is_key id none = false
is_key id (some k) = if str_eq k "" then false else str_eq k id

-- The reporter of the incident, or the user that it is assigned to.
abbrev pub concerned : SocketUser → Incident → Bool
concerned u i = is_key u.id (some i.creator_id) || is_key u.id i.assigned_to_id

-- Whether the user's socket is in one of the rooms.
abbrev hears_any : SocketUser → List Room → Bool
hears_any u rooms = any (λ r. in_channel (connect u) (base r)) rooms

reaches-map :
    (u : SocketUser) (e : String) (d : Update) (rooms : List Room)
    → reaches u (map (λ r. record { room = r; socket_event = e; content = d }) rooms)
      ≡ hears_any u rooms
reaches-map u e d [] = refl
reaches-map u e d (r ∷ rooms) =
    ap (λ b. in_channel (connect u) (base r) || b) (reaches-map u e d rooms)

hears_any-append :
    (u : SocketUser) (xs ys : List Room)
    → hears_any u (xs ++ ys) ≡ (hears_any u xs || hears_any u ys)
hears_any-append u [] ys = refl
hears_any-append u (x ∷ xs) ys = let rest = hears_any-append u xs ys in ground arith

hears_user :
    (u : SocketUser) (o : Option String) → hears_any u (room_of user_room o) ≡ is_key u.id o
unfolding room_of
hears_user u none = refl
hears_user u (some k) = elim (Bool-cases (str_eq k "")) [
  | inl t ↦ rw t refl
  | inr f ↦ rw (f, connect_rooms u (user_room k)) (ground arith)
]

no_department : (o : Option String) → in_department o "" ≡ false
no_department none = refl
no_department (some e) = elim (Bool-cases (str_eq e "")) [
  | inl t ↦ rw t refl
  | inr f ↦ elim (Bool-cases (str_eq "" e)) [
    | inl t ↦ let same = (str_eq_iff e "").1 (sym ((str_eq_iff "" e).0 t)) in cc
    | inr g ↦ rw (f, g) refl
  ]
]

hears_dept :
    (u : SocketUser) (d : String)
    → hears_any u (room_of dept_room (some d)) ≡ in_department u.department_id d
unfolding room_of
hears_dept u d = elim (Bool-cases (str_eq d "")) [
  | inl t ↦ rw t (sym (rw ((str_eq_iff d "").0 t) (no_department u.department_id)))
  | inr f ↦ rw (f, connect_rooms u (dept_room d)) (ground arith)
]

emitted :
    (u : SocketUser) (type e : String) (p : Payload)
    → socket_event type ≡ some e
    → reaches u (notify_sockets type p) ≡ hears_any u (rooms_of type p)
unfolding notify_sockets emit_to
emitted u type e p h = rw h (reaches-map u e (build_payload type p) (rooms_of type p))

-- The creation of an incident reaches exactly the connected users of its department, an assignment
-- the staff member who is assigned, a resolution, a reopening and a reassignment the reporter and
-- whoever the incident is assigned to, and an escalation the administrators, whatever else the
-- payloads carry; an event that no socket event goes with reaches nobody.
pub notify_sockets-reaches :
    (u : SocketUser) (p q : Payload) (i : Incident) (c : Contact) (type : String)
    → p.incident ≡ some i
    → q.staff ≡ some c
    → socket_event type ≡ none
    → (reaches u (notify_sockets "INCIDENT_CREATED" p)
        ≡ in_department u.department_id i.department_id)
      × (reaches u (notify_sockets "INCIDENT_ASSIGNED" q) ≡ is_key u.id c.id)
      × (reaches u (notify_sockets "INCIDENT_RESOLVED" p) ≡ concerned u i)
      × (reaches u (notify_sockets "INCIDENT_REOPENED_BY_FEEDBACK" p) ≡ concerned u i)
      × (reaches u (notify_sockets "INCIDENT_REASSIGNED" p) ≡ concerned u i)
      × (reaches u (notify_sockets "INCIDENT_ESCALATED" p) ≡ is_role admin u.role)
      × (reaches u (notify_sockets type p) ≡ false)
unfolding rooms_of socket_event notify_sockets emit_to
notify_sockets-reaches u p q i c type hi hc none_named =
    let both : hears_any u
          (room_of user_room (some i.creator_id) ++ room_of user_room i.assigned_to_id)
        ≡ concerned u i =
      hears_any-append u (room_of user_room (some i.creator_id))
        (room_of user_room i.assigned_to_id)
      ∙ rw (hears_user u (some i.creator_id), hears_user u i.assigned_to_id) refl in
    let admins = connect_rooms u (role_room admin) in
    (
      emitted u "INCIDENT_CREATED" "incident_created" p refl ∙ rw hi (hears_dept u i.department_id),
      emitted u "INCIDENT_ASSIGNED" "incident_assigned" q refl ∙ rw hc (hears_user u c.id),
      emitted u "INCIDENT_RESOLVED" "incident_updated" p refl ∙ rw hi both,
      emitted u "INCIDENT_REOPENED_BY_FEEDBACK" "incident_reopened" p refl ∙ rw hi both,
      emitted u "INCIDENT_REASSIGNED" "incident_updated" p refl ∙ rw hi both,
      emitted u "INCIDENT_ESCALATED" "incident_escalated" p refl ∙ rw admins (ground arith),
      rw none_named refl,
    )

both_none : (b : Bool) → ◌≡◌ {A = Option String} (if b then none else none) none
both_none true = refl
both_none false = refl

-- A mail is sent exactly when an incident is assigned, to the address of the staff member who is
-- assigned, if there is one and mails are not switched off; no other event sends any.
pub email_to_lem :
    (type : String) (p : Payload)
    → email_to type p ≡ (if str_eq type "INCIDENT_ASSIGNED" then chain p.staff address_of else none)
unfolding email_to get_recipient
email_to_lem type p = elim (Bool-cases (str_eq type "INCIDENT_ASSIGNED")) [
  | inl t ↦ rw t refl
  | inr f ↦ rw f (both_none _)
]
