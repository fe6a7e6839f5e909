-- ===== src/Api/Panic/Heard.antt =====
-- Who hears a panic alert, which alerts are lost, and the two ways to acknowledge one.
use campusops.Common.{
  ℕ, ◌≡◌, refl, arith, String, Bool, true, ◌||◌, Option, none, some, List, [], ◌∷◌,
}
use campusops.Common.Exec.{ok, err}
use campusops.Common.Text.{or_null, Text}
use campusops.Errors.{Thrown, plain_error}
use campusops.User.{role_room, security, admin, user_room}
use campusops.Incident.{is_role}
use campusops.Middleware.Errors.{error_handler, error_value}
use campusops.Realtime.{
  base, SocketUser, Socket, SocketClient, ClientMessage, receive, panic_acknowledge,
  may_acknowledge, acknowledged, to_all, panic_response_dispatched, panic_acknowledged,
}
use campusops.Realtime.Rooms.{receive_all-connect}
use campusops.Api.{Server, status_of, hears_any, socket_after}
use campusops.Api.Panic.{
  PanicBody, NewPanic, PanicRow, PanicNotice, PanicClient, panic_status, Clock, new_panic,
  raise_alarm, located, trigger_panic, acknowledge_found, acknowledge_panic,
}

module _ {F S : Type 0} (client : PanicClient F S) where
  -- A panic alert whose incident is stored is answered with 201, and a connected user hears it
  -- exactly when the role is SECURITY or ADMIN, whatever messages the user's client sent before.
  pub trigger_panic-hears :
      (u : SocketUser) (t : Clock) (message : Option Text) (lat lng : F) (s : S) (row : PanicRow)
      (db : S)
      → client.create_incident (new_panic u t message lat lng) s ≡ (ok row, db)
      → {T : Type 0} (sc : SocketClient T) (now : ℕ) (v : SocketUser) (ms : List ClientMessage)
        (d : T)
      → let (r, s') =
          trigger_panic client true u t
            (record { lat = some lat; lng = some lng; message = message })
            (record { db = s; emitted = [] }) in
        (status_of panic_status r ≡ 201)
        × (hears_any (socket_after sc now v ms d) s'.emitted
            ≡ (is_role security v.role || is_role admin v.role))
  unfolding trigger_panic located raise_alarm
  trigger_panic-hears u t message lat lng s row db created sc now v ms d =
      let sec = (receive_all-connect sc now v ms d (role_room security)).1 in
      let adm = (receive_all-connect sc now v ms d (role_room admin)).1 in
      rw created (refl, ground arith)

  -- What the schema demands: an incident without a department is refused.
  abbrev pub NeedsDepartment : Type 0
  NeedsDepartment =
      (p : NewPanic F) (s : S)
      → p.department_id ≡ none
      → (m : String) × (client.create_incident p s ≡ (err (plain_error m), s))

  -- Where the database demands a department, every panic alert of a user who has none is answered
  -- with 422 or 500: nothing is stored and nobody hears of it.
  pub trigger_panic-lost :
      (io : Bool) (u : SocketUser) (t : Clock) (b : PanicBody F) (s : Server S (PanicNotice F))
      → NeedsDepartment
      → or_null u.department_id ≡ none
      → let (r, s') = trigger_panic client io u t b s in
        (s' ≡ s)
        × (status_of panic_status r
            ≡ (elim b.lat [ none ↦ 422 | some x ↦ elim b.lng [ none ↦ 422 | some y ↦ 500 ] ]))
  unfolding trigger_panic error_handler error_value
  trigger_panic-lost io u t b s needs homeless = lost b.lat b.lng
    where
      lost :
          (lat lng : Option F)
          → let (r, s') = located client io u t b.message lat lng s in
            (s' ≡ s)
            × (status_of panic_status r
                ≡ (elim lat [ none ↦ 422 | some x ↦ elim lng [ none ↦ 422 | some y ↦ 500 ] ]))
      lost none lng = (refl, refl)
      lost (some x) none = (refl, refl)
      lost (some x) (some y) =
          let (m, refused) = needs (new_panic u t b.message x y) s.db homeless in
          rw refused (refl, refl)

  -- When the database refuses an acknowledgement, as it does one that an officer has made before, the
  -- route passes the error on and tells nobody, while the socket handler tells the reporter and the
  -- security officers all the same.
  pub refused_acknowledgement :
      (sc : SocketClient S) (id creator : String) (now : ℕ) (e : Thrown) (db₀ db : S) (k : Socket)
      → may_acknowledge k.user.role ≡ true
      → client.find_creator id db₀ ≡ (ok (some creator), db₀)
      → client.create_ack id k.user.id now db₀ ≡ (err e, db)
      → sc.find_creator id db₀ ≡ (ok (some creator), db₀)
      → sc.create_ack id k.user.id now db₀ ≡ (err e, db)
      → (acknowledge_panic client true k.user id now (record { db = db₀; emitted = [] })
          ≡ (err e, record { db = db; emitted = [] }))
        × (receive sc now (panic_acknowledge id) (record { socket = k; db = db₀; sent = [] })
            ≡ record {
              socket = k;
              db = db;
              sent =
                  (
                    to_all (base (user_room creator)),
                    panic_acknowledged id k.user.name k.user.id now,
                  )
                  ∷ (
                    to_all (base (role_room security)),
                    panic_response_dispatched id k.user.name k.user.id,
                  )
                  ∷ [];
            })
  unfolding acknowledge_panic acknowledge_found receive acknowledged
  refused_acknowledgement sc id creator now e db₀ db k may found refused found' refused' =
      (rw (found, refused) refl, rw (may, found', refused') refl)
