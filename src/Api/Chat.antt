-- ===== src/Api/Chat.antt =====
-- api/controllers/chatController.js: the messages on an incident, who takes part, and receipts.
pub mod History
use campusops.Common.{
  ℕ, Bool, true, false, String, Option, none, some, List, ◌&&◌, str_eq, if◌then◌else◌,
}
use campusops.Common.Exec.{Exec, Result, pure, ◌>>=◌, ◌>>◌}
use campusops.Common.Text.{or_null, Text, trim, is_empty}
use campusops.Errors.{Thrown}
use campusops.User.{UserRole}
use campusops.Realtime.{chat_room, SocketUser}
use campusops.Api.{Server, call, announce}

pub record Message : Type 0 where
  pub id : String
  pub room_id : String
  pub sender_id : String
  pub text : Option Text
  pub attachment_url : Option String
  pub created_at : ℕ

pub record ChatEvent : Type 0 where
  pub message : Message
  pub chat_room_id : String
  pub incident_id : String
  pub sender_id : String
  pub sender_name : String
  pub sender_role : UserRole

pub data ChatNotice : Type 0 where
  chat_message : ChatEvent → ChatNotice
  chat_read : (user_id last_read_message_id : String) → ChatNotice

-- The calls of the database client; `messages` gives the first messages of a room, oldest first.
pub record ChatClient (S : Type 0) : Type 0 where
  pub incident_exists : String → Exec S Thrown Bool
  pub upsert_room : (incident : String) → Exec S Thrown String
  pub upsert_participant : (user room : String) → Exec S Thrown (Unit {0})
  pub create_message : (room sender : String) → Option Text → Option String → Exec S Thrown Message
  pub messages : (room : String) → (take : ℕ) → Exec S Thrown (List Message)
  pub find_room : (incident : String) → Exec S Thrown (Option String)
  pub upsert_receipt : (message user : String) → ℕ → Exec S Thrown (Unit {0})

pub data ChatAnswer : Type 0 where
  empty_message no_incident no_message_id no_room marked : ChatAnswer
  history : (room : String) → List Message → ChatAnswer
  sent : Message → ChatAnswer

-- `res.status(…)`
abbrev pub chat_status : ChatAnswer → ℕ
chat_status empty_message = 422
chat_status no_incident = 404
chat_status no_message_id = 422
chat_status no_room = 404
chat_status marked = 200
chat_status (history r ms) = 200
chat_status (sent m) = 201

-- `!text || text.trim() === ''`
unfoldable pub is_blank : Option Text → Bool
is_blank none = true
is_blank (some t) = is_empty (trim t)

trimmed_text : Text → Option Text
trimmed_text t = if is_empty t then none else some t

-- `text?.trim() || null`
unfoldable pub trimmed : Option Text → Option Text
unfolding trimmed_text
trimmed none = none
trimmed (some t) = trimmed_text (trim t)

abbrev is_null : Option String → Bool
is_null none = true
is_null (some s) = false

module _ {S : Type 0} (client : ChatClient S) where
  abbrev pub Handler : Type 0
  Handler = Exec (Server S ChatNotice) Thrown ChatAnswer

  -- The room of the incident, with the user among those who take part.
  unfoldable pub enter : SocketUser → String → Exec (Server S ChatNotice) Thrown String
  enter u id = do
    room ← call (client.upsert_room id)
    call (client.upsert_participant u.id room)
    pure room

  unfoldable pub history_found : SocketUser → String → Bool → Handler
  unfolding enter
  history_found u id false = pure no_incident
  history_found u id true = do
    room ← enter u id
    ms ← call (client.messages room 100)
    pure (history room ms)

  -- `getChatHistory`
  unfoldable pub get_chat_history : SocketUser → String → Handler
  unfolding history_found
  get_chat_history u id = call (client.incident_exists id) >>= history_found u id

  -- What follows the creation of the message.
  unfoldable pub posted : Bool → SocketUser → (id room : String) → Message → Handler
  posted io u id room m = do
    announce io (chat_room room) (
        chat_message record {
          message = m;
          chat_room_id = room;
          incident_id = id;
          sender_id = u.id;
          sender_name = u.name;
          sender_role = u.role;
        })
    pure (sent m)

  unfoldable pub send_found :
      Bool → SocketUser → String → Option Text → Option String → Bool → Handler
  unfolding enter trimmed posted
  send_found io u id text attachment false = pure no_incident
  send_found io u id text attachment true = do
    room ← enter u id
    m ← call (client.create_message room u.id (trimmed text) (or_null attachment))
    posted io u id room m

  -- `sendMessage`
  unfoldable pub send_message : Bool → SocketUser → String → Option Text → Option String → Handler
  unfolding send_found is_blank
  send_message io u id text attachment =
      if is_blank text && is_null (or_null attachment)
      then pure empty_message
      else call (client.incident_exists id) >>= send_found io u id text attachment

  unfoldable pub read_found : Bool → SocketUser → String → ℕ → Option String → Handler
  read_found io u message now none = pure no_room
  read_found io u message now (some room) = do
    call (client.upsert_receipt message u.id now)
    announce io (chat_room room) (chat_read u.id message)
    pure marked

  marked_by : Bool → SocketUser → String → ℕ → Option String → Handler
  unfolding read_found
  marked_by io u id now none = pure no_message_id
  marked_by io u id now (some message) = call (client.find_room id) >>= read_found io u message now

  -- `markRead`
  unfoldable pub mark_read : Bool → SocketUser → String → ℕ → Option String → Handler
  unfolding marked_by
  mark_read io u id now message = marked_by io u id now (or_null message)
