-- ===== src/Api/Chat/History.antt =====
-- What a chat shows after a message was sent.
use campusops.Common.{
  ℕ, ◌≤◌, ◌≡◌, sym, ap, inl, inr, ◌∙◌, String, Bool, true, false, Option, some, List, [], ◌∷◌, ◌++◌,
  length, take, take-append_full, Bool-cases, ◌&&◌,
}
use campusops.Common.Exec.{ok, pure, >>=-eq-ok, ◌>>=◌, ◌>>◌}
use campusops.Common.Text.{or_null, Text}
use campusops.Realtime.{SocketUser}
use campusops.Api.{Server, call, call_inv}
use campusops.Api.Chat.{
  Message, ChatNotice, ChatClient, history, sent, enter, history_found, get_chat_history,
  send_found, posted, send_message, is_blank, is_null, trimmed,
}

-- What the calls that succeed do to the messages of each room, oldest first, and to the room of each
-- incident: a new message comes last, and an incident keeps its room.
pub record IsChatStore {S : Type 0} (client : ChatClient S) (log : S → String → List Message)
    (room : S → String → Option String) : Type 0 where
  pub exists_log :
      (id : String) (s : S) (b : Bool) (t : S)
      → client.incident_exists id s ≡ (ok b, t)
      → (log t ≡ log s) × (room t ≡ room s)
  pub upsert_log :
      (id : String) (s : S) (r : String) (t : S)
      → client.upsert_room id s ≡ (ok r, t)
      → (log t ≡ log s) × (room t id ≡ some r) × ((q : String) → room s id ≡ some q → q ≡ r)
  pub participant_log :
      (u r : String) (s t : S)
      → client.upsert_participant u r s ≡ (ok tt, t)
      → (log t ≡ log s) × (room t ≡ room s)
  pub create_log :
      (r u : String) (text : Option Text) (attachment : Option String) (s : S) (m : Message) (t : S)
      → client.create_message r u text attachment s ≡ (ok m, t)
      → (log t r ≡ log s r ++ m ∷ []) × (room t ≡ room s)
  pub messages_log :
      (r : String) (n : ℕ) (s : S) (ms : List Message) (t : S)
      → client.messages r n s ≡ (ok ms, t)
      → ms ≡ take n (log s r)

module _ {S : Type 0} {client : ChatClient S} {log : S → String → List Message}
    {room : S → String → Option String} (store : IsChatStore client log room) where
  -- The user came in: the messages are as before, and the room is the incident's.
  abbrev Entered : String → String → S → S → Type 0
  Entered id r s t =
      (log t ≡ log s) × (room t id ≡ some r) × ((q : String) → room s id ≡ some q → q ≡ r)

  enter_inv :
      (u : SocketUser) (id : String) (s : Server S ChatNotice) {r : String}
      {t : Server S ChatNotice}
      → enter client u id s ≡ (ok r, t)
      → Entered id r s.db t.db
  unfolding enter
  enter_inv u id s {r} {t} h =
      let (r', s₁, h₁, k₁) =
        >>=-eq-ok (call (client.upsert_room id))
          (λ (q : String). call (client.upsert_participant u.id q) >> pure q) s h in
      let (x, s₂, h₂, k₂) =
        >>=-eq-ok (call (client.upsert_participant u.id r')) (λ (y : Unit {0}). pure r') s₁ k₁ in
      let (l₁, in₁, old) =
        store.upsert_log id s.db r' s₁.db (call_inv (client.upsert_room id) s h₁).0 in
      let (l₂, in₂) =
        store.participant_log u.id r' s₁.db s₂.db
          (call_inv (client.upsert_participant u.id r') s₁ h₂).0 in
      let here : s₂ ≡ t = cc in
      let same : r' ≡ r = cc in
      rw (← here) (rw (← same) (l₂ ∙ l₁, ap (λ (f : String → Option String). f id) in₂ ∙ in₁, old))

  found_inv :
      (u : SocketUser) (id : String) (b : Bool) (s : Server S ChatNotice) {r : String}
      {ms : List Message} {t : Server S ChatNotice}
      → history_found client u id b s ≡ (ok (history r ms), t)
      → (ms ≡ take 100 (log s.db r)) × ((q : String) → room s.db id ≡ some q → q ≡ r)
  unfolding history_found
  found_inv u id false s h = cc
  found_inv u id true s {r} {ms} h =
      let (r', s₁, h₁, k₁) =
        >>=-eq-ok (enter client u id)
          (λ (q : String). call (client.messages q 100) >>= λ ms. pure (history q ms)) s h in
      let (l, i, old) = enter_inv u id s h₁ in
      let (ms', s₂, h₂, k₂) =
        >>=-eq-ok (call (client.messages r' 100)) (λ (ms : List Message). pure (history r' ms)) s₁
          k₁ in
      let all =
        store.messages_log r' 100 s₁.db ms' s₂.db (call_inv (client.messages r' 100) s₁ h₂).0 in
      let same : r' ≡ r = cc in
      let listed : ms' ≡ ms = cc in
      (
        sym listed
            ∙ all
            ∙ ap (λ (f : String → List Message). take 100 (f r')) l
            ∙ ap (λ q. take 100 (log s.db q)) same,
        λ q e. old q e ∙ same,
      )

  history_inv :
      (u : SocketUser) (id : String) (s : Server S ChatNotice) {r : String} {ms : List Message}
      {t : Server S ChatNotice}
      → get_chat_history client u id s ≡ (ok (history r ms), t)
      → (ms ≡ take 100 (log s.db r)) × ((q : String) → room s.db id ≡ some q → q ≡ r)
  unfolding get_chat_history
  history_inv u id s {r} h =
      let (b, s₁, h₁, k₁) =
        >>=-eq-ok (call (client.incident_exists id)) (history_found client u id) s h in
      let (l, o) = store.exists_log id s.db b s₁.db (call_inv (client.incident_exists id) s h₁).0 in
      let (m, old) = found_inv u id b s₁ k₁ in
      (
        m ∙ ap (λ (f : String → List Message). take 100 (f r)) l,
        λ q e. old q (ap (λ (f : String → Option String). f id) o ∙ e),
      )

  -- The room that a message went to is the incident's from then on, and the message its last.
  record Went (id : String) (m : Message) (s t : S) : Type 0 where
    to : String
    kept : room t id ≡ some to
    last : log t to ≡ log s to ++ m ∷ []

  posted_inv :
      (io : Bool) (u : SocketUser) (id r : String) (m' : Message) (s : Server S ChatNotice)
      {m : Message} {t : Server S ChatNotice}
      → posted client io u id r m' s ≡ (ok (sent m), t)
      → (m' ≡ m) × (t.db ≡ s.db)
  unfolding posted
  posted_inv true u id r m' s h = (cc, cc)
  posted_inv false u id r m' s h = (cc, cc)

  send_found_inv :
      (io : Bool) (u : SocketUser) (id : String) (text : Option Text) (attachment : Option String)
      (b : Bool) (s : Server S ChatNotice) {m : Message} {t : Server S ChatNotice}
      → send_found client io u id text attachment b s ≡ (ok (sent m), t)
      → Went id m s.db t.db
  unfolding send_found
  send_found_inv io u id text attachment false s h = cc
  send_found_inv io u id text attachment true s {m} {t} h =
      let (r, s₁, h₁, k₁) =
        >>=-eq-ok (enter client u id)
          (λ (q : String).
            call (client.create_message q u.id (trimmed text) (or_null attachment))
            >>= posted client io u id q)
          s h in
      let (l, i, old) = enter_inv u id s h₁ in
      let (m', s₂, h₂, k₂) =
        >>=-eq-ok (call (client.create_message r u.id (trimmed text) (or_null attachment)))
          (posted client io u id r) s₁ k₁ in
      let (l₂, o₂) =
        store.create_log r u.id (trimmed text) (or_null attachment) s₁.db m' s₂.db
          (call_inv (client.create_message r u.id (trimmed text) (or_null attachment)) s₁ h₂).0 in
      let (same, kept) = posted_inv io u id r m' s₂ k₂ in
      record {
        to = r;
        kept = ap (λ d. room d id) kept ∙ ap (λ (f : String → Option String). f id) o₂ ∙ i;
        last =
            ap (λ d. log d r) kept
            ∙ l₂
            ∙ ap (λ (f : String → List Message). f r ++ m' ∷ []) l
            ∙ ap (λ x. log s.db r ++ x ∷ []) same;
      }

  send_inv :
      (io : Bool) (u : SocketUser) (id : String) (text : Option Text) (attachment : Option String)
      (s : Server S ChatNotice) {m : Message} {t : Server S ChatNotice}
      → send_message client io u id text attachment s ≡ (ok (sent m), t)
      → Went id m s.db t.db
  unfolding send_message
  send_inv io u id text attachment s {m} h =
      elim (Bool-cases (is_blank text && is_null (or_null attachment))) [
        | inl blank ↦ cc (rw blank at h)
        | inr said ↦
            let (b, s₁, h₁, k₁) =
              >>=-eq-ok (call (client.incident_exists id))
                (send_found client io u id text attachment) s (rw said at h) in
            let (l, o) =
              store.exists_log id s.db b s₁.db (call_inv (client.incident_exists id) s h₁).0 in
            let w = send_found_inv io u id text attachment b s₁ k₁ in
            record {
              to = w.to;
              kept = w.kept;
              last = w.last ∙ ap (λ (f : String → List Message). f w.to ++ m ∷ []) l;
            }
      ]

  -- Where the database keeps the messages of a room in their order, after a message was sent the
  -- history of the incident is the first hundred of the messages of its room with the new one last;
  -- so in a room that held a hundred messages before, the history is still the first hundred of
  -- those, without the new one.
  pub send_message-history :
      (io : Bool) (u v : SocketUser) (id : String) (text : Option Text) (attachment : Option String)
      (s : Server S ChatNotice) {m : Message} {s₁ s₂ : Server S ChatNotice} {r : String}
      {ms : List Message}
      → send_message client io u id text attachment s ≡ (ok (sent m), s₁)
      → get_chat_history client v id s₁ ≡ (ok (history r ms), s₂)
      → (ms ≡ take 100 (log s.db r ++ m ∷ []))
        × (100 ≤ length (log s.db r) → ms ≡ take 100 (log s.db r))
  send_message-history io u v id text attachment s {m} {s₁} {s₂} {r} {ms} h k =
      let w = send_inv io u id text attachment s h in
      let (shown, old) = history_inv v id s₁ k in
      let here : log s₁.db r ≡ log s.db r ++ m ∷ [] =
        sym (ap (λ q. log s₁.db q) (old w.to w.kept))
        ∙ w.last
        ∙ ap (λ q. log s.db q ++ m ∷ []) (old w.to w.kept) in
      let all = shown ∙ ap (λ xs. take 100 xs) here in
      (all, λ full. all ∙ take-append_full 100 (log s.db r) (m ∷ []) full)
