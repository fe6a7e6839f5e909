-- ===== src/Middleware/Auth.antt =====
-- api/middleware/auth.js: who a request comes from, and which roles a route admits.
-- `verify` stands for `jwt.verify` with the server's secret: the payload, or the message it throws.
pub mod Guards
use campusops.Common.{
  ℕ, zero, suc, String, Bool, true, false, ◌&&◌, ◌||◌, not, Option, none, some, List, [], ◌∷◌, ◌==◌,
  any, if◌then◌else◌,
}
use campusops.Common.Exec.{Result, ok, err}
use campusops.Common.Text.{Text, codes, is_empty}
use campusops.User.{UserRole}
use campusops.Incident.{is_role}
use campusops.Middleware.Errors.{ErrorValue}

pub record Payload : Type 0 where
  pub id : String
  pub role : UserRole
  pub department_id : Option String

pub record Request : Type 0 where
  -- `req.headers['authorization'] ?? req.headers['Authorization']`
  pub auth_header : Option Text
  pub user : Option Payload

-- `next()` with the request as it is then, or `next(err)`.
pub data Next : Type 0 where
  proceed : Request → Next
  fail : ErrorValue → Next

-- `makeError(message, statusCode, code)`
unfoldable pub make_error : ℕ → String → ErrorValue
make_error status_code code = record {
  status_code = some status_code;
  domain_error = none;
  code = some code;
  class_name = "Error";
  field = none;
}

-- The text behind a prefix, if it has the prefix: `startsWith` and `slice` in one.
unfoldable pub after_prefix : Text → Text → Option Text
after_prefix [] s = some s
after_prefix (c ∷ p) [] = none
after_prefix (c ∷ p) (d ∷ s) = let rest = after_prefix p s in if c == d then rest else none

bearer_token : Option Text → Option Text
unfolding after_prefix
bearer_token none = none
bearer_token (some h) = after_prefix (codes "Bearer ") h

with_user : Request → Result String Payload → Next
unfolding make_error
with_user req (err m) = fail (make_error 401 "TOKEN_INVALID")
with_user req (ok p) = proceed (record req { user = some p })

verified : (Text → Result String Payload) → Request → Option Text → Next
unfolding make_error with_user
verified verify req none = fail (make_error 401 "UNAUTHENTICATED")
verified verify req (some token) =
    if is_empty token then fail (make_error 401 "UNAUTHENTICATED") else with_user req (verify token)

unfoldable pub authenticate : (Text → Result String Payload) → Request → Next
unfolding verified bearer_token
authenticate verify req = verified verify req (bearer_token req.auth_header)

admits : List UserRole → Request → Option Payload → Next
unfolding make_error
admits allowed req none = fail (make_error 500 "MIDDLEWARE_ORDER_ERROR")
admits allowed req (some p) =
    if any (is_role p.role) allowed then proceed req else fail (make_error 403 "FORBIDDEN")

unfoldable pub authorize : List UserRole → Request → Next
unfolding admits
authorize allowed req = admits allowed req req.user

and_then : Next → (Request → Next) → Next
and_then (fail e) f = fail e
and_then (proceed req) f = f req

-- A route that lists `authenticate` and `authorize(...allowed)` before its handler.
unfoldable pub guard_route : (Text → Result String Payload) → List UserRole → Request → Next
unfolding and_then
guard_route verify allowed req = and_then (authenticate verify req) (authorize allowed)
