-- ===== src/Api.antt =====
-- What the controllers of api/controllers share, beside the one of incidents: the database client
-- and the socket server that they are built with, and the answers of the error handler.
pub mod Alerts
pub mod Analytics
pub mod Chat
pub mod Departments
pub mod Paging
pub mod Panic
pub mod Users
mod Examples
use campusops.Common.{
  ◌≡◌, true, false, ℕ, Bool, String, Option, none, some, List, [], ◌∷◌, ◌++◌, any, str_eq,
  if◌then◌else◌,
}
use campusops.Common.Exec.{Exec, Result, ok, err, modify, when}
use campusops.Errors.{Thrown}
use campusops.Middleware.Errors.{error_handler, error_value}
use campusops.Realtime.{
  Channel, Socket, SocketUser, SocketClient, ClientMessage, in_channel, connect, receive_all,
}

-- The state behind the database client, and what was emitted: `M` is the messages.
pub record Server (S M : Type 0) : Type 0 where
  pub db : S
  pub emitted : List (Channel × M)

module _ {S M : Type 0} where
  abbrev pub in_db : {A : Type 0} → Result Thrown A × S → Server S M → Result Thrown A × Server S M
  in_db (r, t) s = (r, record s { db = t })

  -- `await this.prisma…`
  abbrev pub call : {A : Type 0} → Exec S Thrown A → Exec (Server S M) Thrown A
  call m s = in_db (m s.db) s

  -- `if (this.io) this.io.to(c).emit(m)`
  abbrev pub announce : Bool → Channel → M → Exec (Server S M) Thrown (Unit {0})
  announce io c m =
      when io (modify λ (s : Server S M). record s { emitted = s.emitted ++ (c, m) ∷ [] })

  in_db_inv :
      {A : Type 0} (r : Result Thrown A × S) (s : Server S M) {a : A} {t : Server S M}
      → in_db r s ≡ (ok a, t)
      → (r ≡ (ok a, t.db)) × (t.emitted ≡ s.emitted)
  in_db_inv (ok b, d) s h = (cc, cc)
  in_db_inv (err e, d) s h = cc

  -- A call that returned: what it did to the database, and that it emitted nothing.
  pub call_inv :
      {A : Type 0} (m : Exec S Thrown A) (s : Server S M) {a : A} {t : Server S M}
      → call m s ≡ (ok a, t)
      → (m s.db ≡ (ok a, t.db)) × (t.emitted ≡ s.emitted)
  call_inv m s h = in_db_inv (m s.db) s h

  pub announce_db :
      (io : Bool) (c : Channel) (m : M) (s : Server S M) {u : Unit {0}} {t : Server S M}
      → announce io c m s ≡ (ok u, t)
      → t.db ≡ s.db
  announce_db true c m s h = cc
  announce_db false c m s h = cc

-- The status of the response: the handler's own, or that of the error passed to `next`.
abbrev pub status_of : {A : Type 0} → (A → ℕ) → Result Thrown A → ℕ
status_of f (ok a) = f a
status_of f (err e) = (error_handler (error_value e)).status

-- Whether the socket hears one of the messages.
abbrev pub hears_any : {M : Type 0} → Socket → List (Channel × M) → Bool
hears_any k es = any (λ (c, m). in_channel k c) es

-- The socket of a user, after whatever its client sent since it connected.
abbrev pub socket_after :
    {T : Type 0} → SocketClient T → ℕ → SocketUser → List ClientMessage → T → Socket
socket_after sc now v ms db =
    (receive_all sc now ms (record { socket = connect v; db = db; sent = [] })).socket
