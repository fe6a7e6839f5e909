-- ===== src/Middleware/Auth/Guards.antt =====
-- What a request has shown when a guarded handler runs (api/middleware/auth.js).
use campusops.Common.{
  ◌≡◌, refl, ap, ◌⊎◌, inl, inr, String, true, false, Option, none, some, List, [], ◌∷◌, ◌++◌, arith,
  any, ◌==◌, ==_iff, Bool-cases,
}
use campusops.Common.Exec.{Result, ok, err}
use campusops.Common.Text.{Text, codes, is_empty}
use campusops.User.{UserRole}
use campusops.Incident.{is_role}
use campusops.Middleware.Errors.{ErrorValue, resolve_status_code}
use campusops.Middleware.Auth.{
  Payload, Request, proceed, fail, after_prefix, authenticate, authorize, guard_route, bearer_token,
  verified, with_user, and_then,
}

after_prefix_sound : (p s rest : Text) → after_prefix p s ≡ some rest → s ≡ p ++ rest
unfolding after_prefix
after_prefix_sound [] s rest e = cc
after_prefix_sound (c ∷ p) [] rest e = cc
after_prefix_sound (c ∷ p) (d ∷ s) rest e = elim (Bool-cases (c == d)) [
  | inl same ↦
      let tails = after_prefix_sound p s rest (rw same at e) in
      let heads : c ≡ d = (==_iff c d).0 same in cc
  | inr other ↦ cc (rw other at e)
]

after_prefix_complete : (p rest : Text) → after_prefix p (p ++ rest) ≡ some rest
unfolding after_prefix
after_prefix_complete [] rest = refl
after_prefix_complete (c ∷ p) rest = rw ((==_iff c c).1 refl) (after_prefix_complete p rest)

-- The header carries a token that `verify` accepts, of a user in one of the roles.
pub record Admitted (verify : Text → Result String Payload) (allowed : List UserRole)
    (req : Request) (p : Payload) : Type 0 where
  pub token : Text
  pub header : req.auth_header ≡ some (codes "Bearer " ++ token)
  pub given : is_empty token ≡ false
  pub verifies : verify token ≡ ok p
  pub role_listed : any (is_role p.role) allowed ≡ true

module _ (verify : Text → Result String Payload) (allowed : List UserRole) where
  bearer_token-header :
      (o : Option Text) (token : Text)
      → bearer_token o ≡ some token
      → o ≡ some (codes "Bearer " ++ token)
  unfolding bearer_token
  bearer_token-header none token e = cc
  bearer_token-header (some h) token e = ap some (after_prefix_sound (codes "Bearer ") h token e)

  with_user_inv :
      (req out : Request) (r : Result String Payload)
      → and_then (with_user req r) (authorize allowed) ≡ proceed out
      → (p : Payload) × (r ≡ ok p)
        × (any (is_role p.role) allowed ≡ true)
        × (out ≡ record req { user = some p })
  unfolding and_then with_user authorize
  with_user_inv req out (err m) e = cc
  with_user_inv req out (ok p) e = (p, refl, ground arith, ground arith)

  Admitted-of_token :
      (req out : Request) (o : Option Text)
      → bearer_token req.auth_header ≡ o
      → and_then (verified verify req o) (authorize allowed) ≡ proceed out
      → (p : Payload) × Admitted verify allowed req p × (out ≡ record req { user = some p })
  unfolding verified and_then
  Admitted-of_token req out none b e = cc
  Admitted-of_token req out (some []) b e = cc
  Admitted-of_token req out (some (c ∷ token)) b e =
      let (p, v, r, o) = with_user_inv req out (verify (c ∷ token)) e in
      (
        p,
        record {
          token = c ∷ token;
          header = bearer_token-header req.auth_header (c ∷ token) b;
          given = refl;
          verifies = v;
          role_listed = r;
        },
        o,
      )

  -- The handler of a guarded route runs only for a request whose header carries a token that
  -- verifies to a user in one of the roles of the route, and it sees that user.
  pub guard_route_sound :
      (req out : Request)
      → guard_route verify allowed req ≡ proceed out
      → (p : Payload) × Admitted verify allowed req p × (out ≡ record req { user = some p })
  unfolding guard_route authenticate
  guard_route_sound req out e = Admitted-of_token req out (bearer_token req.auth_header) refl e

  header_token :
      (o : Option Text) (token : Text)
      → o ≡ some (codes "Bearer " ++ token)
      → bearer_token o ≡ some token
  unfolding bearer_token
  header_token o token e = rw e (after_prefix_complete (codes "Bearer ") token)

  token_admits :
      (req : Request) (p : Payload) (token : Text) (o : Option Text)
      → o ≡ some token
      → is_empty token ≡ false
      → verify token ≡ ok p
      → any (is_role p.role) allowed ≡ true
      → and_then (verified verify req o) (authorize allowed)
        ≡ proceed (record req { user = some p })
  unfolding and_then verified with_user authorize
  token_admits req p token o e given v r = rw (e, given, v, r)

  -- A request with a token that verifies passes `authenticate`, whatever the role.
  pub authenticate_complete :
      (req : Request) (p : Payload) (token : Text)
      → req.auth_header ≡ some (codes "Bearer " ++ token)
      → is_empty token ≡ false
      → verify token ≡ ok p
      → authenticate verify req ≡ proceed (record req { user = some p })
  unfolding authenticate verified with_user
  authenticate_complete req p token h given v =
      let carried = header_token req.auth_header token h in rw (carried, given, v) refl

  -- A request that carries such a token always reaches the handler, with that user.
  pub guard_route_complete :
      (req : Request) (p : Payload)
      → Admitted verify allowed req p
      → guard_route verify allowed req ≡ proceed (record req { user = some p })
  unfolding guard_route authenticate
  guard_route_complete req p a =
      token_admits req p a.token (bearer_token req.auth_header)
        (header_token req.auth_header a.token a.header) a.given a.verifies a.role_listed

  -- A request that is turned away gets 401 or 403, never the 500 of a guard out of order.
  pub guard_route_refuses :
      (req : Request) {e : ErrorValue}
      → guard_route verify allowed req ≡ fail e
      → (resolve_status_code e ≡ 401) ⊎ (resolve_status_code e ≡ 403)
  unfolding guard_route authenticate authorize resolve_status_code
  guard_route_refuses req h = grind arith
