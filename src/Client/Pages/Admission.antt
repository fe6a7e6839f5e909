-- ===== src/Client/Pages/Admission.antt =====
-- The pages that the client shows against the requests that the server lets through.
use campusops.Common.{◌≡◌, ◌↔◌, Option, none, some, List, String}
use campusops.Common.Exec.{Result}
use campusops.Common.Text.{Text}
use campusops.User.{UserRole}
use campusops.Middleware.Auth.{Payload, Request, Next, proceed, authenticate, guard_route}
use campusops.Client.Session.{Session}
use campusops.Client.Pages.{View, page}

-- The middleware of a route: `authenticate`, and `authorize` where it is called.
abbrev pub serve_at : (Text → Result String Payload) → Option (List UserRole) → Request → Next
serve_at verify none req = authenticate verify req
serve_at verify (some roles) req = guard_route verify roles req

abbrev Agrees : List UserRole → Option (List UserRole) → Type 0
Agrees roles none = Unit
Agrees roles (some rs) = rs ≡ roles

-- A route that asks for no role lets the request through, and one that asks for a role does exactly
-- when the page is shown.
abbrev pub Matches :
    (Text → Result String Payload) → Request → Payload → View → Option (List UserRole) → Type 0
Matches verify req p view none = serve_at verify none req ≡ proceed (record req { user = some p })
Matches verify req p view (some rs) =
    (view ≡ page) ↔ (serve_at verify (some rs) req ≡ proceed (record req { user = some p }))
