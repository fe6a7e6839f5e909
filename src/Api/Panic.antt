-- ===== src/Api/Panic.antt =====
-- api/controllers/panicController.js: raising a panic alert, and saying that help is on the way.
-- `F` is the numbers that `parseFloat` reads a coordinate as; `none` is NaN, also of a missing field.
pub mod Heard
use Prim.Native.String.{◌++◌ as ◌+++◌}
use campusops.Common.{ℕ, ◌+◌, ◌*◌, Bool, String, Option, none, some, if◌then◌else◌, or_default}
use campusops.Common.Exec.{Exec, Result, pure, ◌>>=◌, ◌>>◌}
use campusops.Common.Text.{or_null, Text, codes, is_empty}
use campusops.Errors.{Thrown}
use campusops.User.{user_room, role_room, security, admin}
use campusops.Sla.{Priority, critical}
use campusops.Incident.{Category, emergency_category}
use campusops.Realtime.{base, SocketUser}
use campusops.Api.{Server, call, announce}

pub record PanicBody (F : Type 0) : Type 0 where
  pub lat : Option F
  pub lng : Option F
  pub message : Option Text

-- The data of `prisma.incident.create`.
pub record NewPanic (F : Type 0) : Type 0 where
  pub title : String
  pub description : Text
  pub category : Category
  pub priority : Priority
  pub status : String
  pub location_block : String
  pub lat : F
  pub lng : F
  pub creator_id : String
  pub department_id : Option String
  pub sla_window_hours : ℕ
  pub sla_deadline_at : ℕ
  -- `PANIC-${…}`
  pub incident_number : ℕ

-- The row's id and number.
pub record PanicRow : Type 0 where
  pub id : String
  pub incident_number : ℕ

pub record PanicAlert (F : Type 0) : Type 0 where
  pub incident_id : String
  pub incident_number : ℕ
  pub reporter_id : String
  pub reporter_name : String
  pub lat : F
  pub lng : F
  pub message : Option Text
  pub triggered_at : ℕ

pub data PanicNotice (F : Type 0) : Type 0 where
  panic_alert : PanicAlert F → PanicNotice F
  panic_acknowledged panic_acknowledged_global :
      (incident_id officer_name : String) → ℕ → PanicNotice F

-- The calls of the database client; `create_ack` returns the time that it stored.
pub record PanicClient (F S : Type 0) : Type 0 where
  pub create_incident : NewPanic F → Exec S Thrown PanicRow
  pub find_creator : String → Exec S Thrown (Option String)
  pub create_ack : (incident officer : String) → ℕ → Exec S Thrown ℕ

pub data PanicAnswer : Type 0 where
  invalid_location : PanicAnswer
  notified : (incident_id : String) → PanicAnswer
  not_found acknowledged : PanicAnswer

-- `res.status(…)`
abbrev pub panic_status : PanicAnswer → ℕ
panic_status invalid_location = 422
panic_status (notified id) = 201
panic_status not_found = 404
panic_status acknowledged = 200

-- `message || d`, for a text that may be missing
text_or : Option Text → Text → Text
text_or none d = d
text_or (some m) d = if is_empty m then d else m

text_or_null : Option Text → Option Text
text_or_null none = none
text_or_null (some m) = if is_empty m then none else some m

-- When the clock is read: for the deadline, for the number, and for the alert.
pub record Clock : Type 0 where
  pub deadline : ℕ
  pub number : ℕ
  pub alert : ℕ

unfoldable pub new_panic : {F : Type 0} → SocketUser → Clock → Option Text → F → F → NewPanic F
unfolding text_or
new_panic u t message lat lng = record {
  title = "PANIC: Emergency reported by " +++ u.name;
  description =
      text_or message (codes "Emergency panic button triggered - immediate response required");
  category = emergency_category;
  priority = critical;
  status = "OPEN";
  location_block = "PANIC";
  lat = lat;
  lng = lng;
  creator_id = u.id;
  department_id = or_null u.department_id;
  sla_window_hours = 1;
  sla_deadline_at = t.deadline + 60 * 60 * 1000;
  incident_number = t.number;
}

unfoldable pub alert_of :
    {F : Type 0} → SocketUser → Clock → Option Text → F → F → PanicRow → PanicNotice F
unfolding text_or_null
alert_of u t message lat lng row = panic_alert record {
  incident_id = row.id;
  incident_number = row.incident_number;
  reporter_id = u.id;
  reporter_name = u.name;
  lat = lat;
  lng = lng;
  message = text_or_null message;
  triggered_at = t.alert;
}

module _ {F S : Type 0} (client : PanicClient F S) (io : Bool) where
  abbrev pub Handler : Type 0
  Handler = Exec (Server S (PanicNotice F)) Thrown PanicAnswer

  unfoldable pub raise_alarm : SocketUser → Clock → Option Text → F → F → Handler
  unfolding new_panic alert_of
  raise_alarm u t message lat lng = do
    row ← call (client.create_incident (new_panic u t message lat lng))
    announce io (base (role_room security)) (alert_of u t message lat lng row)
    announce io (base (role_room admin)) (alert_of u t message lat lng row)
    pure (notified row.id)

  located : SocketUser → Clock → Option Text → Option F → Option F → Handler
  unfolding raise_alarm
  located u t message (some lat) (some lng) = raise_alarm u t message lat lng
  located u t message (some lat) none = pure invalid_location
  located u t message none lng = pure invalid_location

  -- `triggerPanic`
  unfoldable pub trigger_panic : SocketUser → Clock → PanicBody F → Handler
  unfolding located
  trigger_panic u t b = located u t b.message b.lat b.lng

  unfoldable pub acknowledge_found : SocketUser → String → ℕ → Option String → Handler
  acknowledge_found u id now none = pure not_found
  acknowledge_found u id now (some creator) = do
    at ← call (client.create_ack id u.id now)
    announce io (base (user_room creator)) (panic_acknowledged id u.name at)
    announce io (base (role_room security)) (panic_acknowledged_global id u.name at)
    announce io (base (role_room admin)) (panic_acknowledged_global id u.name at)
    pure acknowledged

  -- `acknowledgePanic`
  unfoldable pub acknowledge_panic : SocketUser → String → ℕ → Handler
  unfolding acknowledge_found
  acknowledge_panic u id now = call (client.find_creator id) >>= acknowledge_found u id now
