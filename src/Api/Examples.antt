-- ===== src/Api/Examples.antt =====
-- The theorems on the controllers at concrete inputs: panic alerts, alerts and chats.
use campusops.Common.{
  ℕ, ◌+◌, ◌≡◌, ◌≤◌, ◌||◌, refl, ap, sym, true, String, Option, none, some, List, [], ◌∷◌, ◌++◌, ◌∙◌,
  length, take,
}
use campusops.Common.Exec.{Result, ok, err}
use campusops.Common.Text.{Text, codes, trim}
use campusops.Errors.{Thrown, plain_error}
use campusops.User.{student, security, admin}
use campusops.Incident.{is_role}
use campusops.Commands.Alert.{AlertData}
use campusops.Realtime.{SocketUser, SocketClient, ClientMessage, join_incident, join_chat}
use campusops.Api.{status_of, hears_any, socket_after}
use campusops.Api.Panic.{
  PanicRow, PanicClient, NewPanic, Clock, new_panic, panic_status, trigger_panic,
}
use campusops.Api.Panic.Heard.{trigger_panic-hears, trigger_panic-lost, NeedsDepartment}
use campusops.Api.Alerts.{
  AlertBody, AlertRow, AlertClient, alert_status, broadcast_alert, retract_alert, alert_data,
  checked,
}
use campusops.Api.Alerts.Reach.{reached, broadcast_alert-hears}
use campusops.Api.Chat.{
  Message, ChatClient, send_message, send_found, get_chat_history, history_found, enter, is_blank,
  trimmed, posted,
}
use campusops.Api.Chat.History.{IsChatStore, send_message-history}

abbrev asha : SocketUser
asha = record { id = "U1"; name = "Asha"; role = student; department_id = some "D1" }

abbrev visitor : SocketUser
visitor = record { id = "U2"; name = "Ravi"; role = student; department_id = none }

abbrev officer : SocketUser
officer = record { id = "S1"; name = "Guard"; role = security; department_id = none }

abbrev quiet : SocketClient ℕ
quiet = record {
  find_chat_room = λ id s. (ok (some "R1"), s);
  find_sla = λ id s. (ok none, s);
  find_creator = λ id s. (ok (some "U1"), s);
  create_ack = λ i o t s. (ok tt, s);
}

abbrev visit : List ClientMessage
visit = join_incident "I1" ∷ join_chat "I1" ∷ []

abbrev noon : Clock
noon = record { deadline = 10; number = 11; alert = 12 }

-- A database that demands a department, and counts the rows that it took.
stored : NewPanic ℕ → Option String → ℕ → Result Thrown PanicRow × ℕ
stored p none s = (err (plain_error "departmentId is missing"), s)
stored p (some d) s = (ok (record { id = "P1"; incident_number = p.incident_number }), s + 1)

abbrev strict : PanicClient ℕ ℕ
strict = record {
  create_incident = λ p s. stored p p.department_id s;
  find_creator = λ id s. (ok (some "U1"), s);
  create_ack = λ i o t s. (ok t, s);
}

trigger_panic-hears_example :
    let (r, s) =
      trigger_panic strict true asha noon
        (record { lat = some 1; lng = some 2; message = none })
        (record { db = 0; emitted = [] }) in
    (status_of panic_status r ≡ 201)
    × (hears_any (socket_after quiet 5 officer visit 0) s.emitted
        ≡ (is_role security officer.role || is_role admin officer.role))
unfolding stored new_panic
trigger_panic-hears_example =
    trigger_panic-hears strict asha noon none 1 2 0 (record { id = "P1"; incident_number = 11 }) 1
      refl quiet 5 officer visit 0

strict-NeedsDepartment : NeedsDepartment strict
unfolding stored
strict-NeedsDepartment p s h = ("departmentId is missing", rw h refl)

trigger_panic-lost_example :
    let (r, s') =
      trigger_panic strict true visitor noon
        (record { lat = some 1; lng = some 2; message = none })
        (record { db = 0; emitted = [] }) in
    (s' ≡ record { db = 0; emitted = [] }) × (status_of panic_status r ≡ 500)
trigger_panic-lost_example =
    trigger_panic-lost strict true visitor noon
      (record { lat = some 1; lng = some 2; message = none }) (record { db = 0; emitted = [] })
      strict-NeedsDepartment refl

abbrev outage : AlertBody
outage = record {
  title = some (codes "Water");
  message = some (codes "No water today");
  type = some "MAINTENANCE_SHUTDOWN";
  severity = some "WARNING";
  scope_target = some "DEPARTMENT";
  scope_department_id = some "D1";
  scope_role = none;
  delivery_channels = [];
}

abbrev row_of : AlertData → AlertRow
row_of a = record {
  id = "AL1";
  content = a;
  delivery_channels = [];
  created_by_id = "A1";
  retracted_at = none;
}

-- The state is the one alert of the table.
abbrev board : AlertClient (Option AlertRow)
board = record {
  create = λ a channels u s. (ok (row_of a), some (row_of a));
  find = λ id s. (ok s, s);
  retract = λ id t s. (ok (row_of (alert_data outage)), s);
}

broadcast_alert-hears_example :
    let posted_row = some (row_of (alert_data outage)) in
    let (r, t) = broadcast_alert board true officer outage (record { db = none; emitted = [] }) in
    let (r₂, t₂) = retract_alert board true "AL1" 90 (record { db = posted_row; emitted = [] }) in
    (status_of alert_status r ≡ 201)
    × (status_of alert_status r₂ ≡ 200)
    × (hears_any (socket_after quiet 5 asha visit 0) t.emitted ≡ reached (alert_data outage) asha)
    × (hears_any (socket_after quiet 5 asha visit 0) t₂.emitted ≡ reached (alert_data outage) asha)
unfolding checked
broadcast_alert-hears_example =
    let row = row_of (alert_data outage) in
    broadcast_alert-hears board quiet 5 asha visit 0 officer outage (alert_data outage) none
      (some row) (some row) (some row) (some row) row row row 90 refl refl refl refl refl

-- One room; the state is its messages.
abbrev message : String → String → Option Text → Option String → Message
message r u text attachment = record {
  id = "M1";
  room_id = r;
  sender_id = u;
  text = text;
  attachment_url = attachment;
  created_at = 5;
}

abbrev hall : ChatClient (List Message)
hall = record {
  incident_exists = λ id s. (ok true, s);
  upsert_room = λ id s. (ok "R1", s);
  upsert_participant = λ u r s. (ok tt, s);
  create_message = λ r u text a s. (ok (message r u text a), s ++ message r u text a ∷ []);
  messages = λ r n s. (ok (take n s), s);
  find_room = λ id s. (ok (some "R1"), s);
  upsert_receipt = λ m u t s. (ok tt, s);
}

abbrev log : List Message → String → List Message
log s r = s

abbrev room : List Message → String → Option String
room s id = some "R1"

hall-IsChatStore : IsChatStore hall log room
hall-IsChatStore = record {
  exists_log = λ id s b t h. let same : s ≡ t = cc in (ap log (sym same), refl);
  upsert_log = λ id s r t h.
      let same : s ≡ t = cc in
      let here : "R1" ≡ r = cc in
      (
        ap log (sym same),
        ap (λ x. some x) here,
        λ q e. let there : "R1" ≡ q = cc in sym there ∙ here,
      );
  participant_log = λ u r s t h. let same : s ≡ t = cc in (ap log (sym same), refl);
  create_log = λ r u text a s m t h.
      let same : message r u text a ≡ m = cc in
      let all : s ++ message r u text a ∷ [] ≡ t = cc in
      (sym all ∙ ap (λ x. s ++ x ∷ []) same, refl);
  messages_log = λ r n s ms t h. cc;
}

abbrev sent_message : Message
sent_message = message "R1" "U1" (trimmed (some (codes "hello"))) none

send_message-history_example :
    (sent_message ∷ [] ≡ take 100 ([] ++ sent_message ∷ []))
    × (100 ≤ length {A = Message} [] → sent_message ∷ [] ≡ take 100 [])
unfolding send_message send_found get_chat_history history_found enter is_blank trim trimmed posted
send_message-history_example =
    send_message-history hall-IsChatStore true asha officer "I1" (some (codes "hello")) none
      (record { db = []; emitted = [] }) {r = "R1"} refl refl
