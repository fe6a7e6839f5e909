-- ===== src/Login/Session.antt =====
-- What an answer that signs in rests on, and what its token opens.
use campusops.Common.{
  ℕ, ◌≡◌, refl, sym, ap, ◌∙◌, not, if◌then◌else◌, String, Bool, true, false, Option, none, some,
  List, ◌++◌, any,
}
use campusops.Common.Exec.{Exec, Result, ok, pure, >>=-eq-ok}
use campusops.Common.Text.{Text, codes, is_empty}
use campusops.Errors.{Thrown}
use campusops.User.{UserRole}
use campusops.Incident.{is_role}
use campusops.Middleware.Auth.{Payload, Request, proceed, guard_route}
use campusops.Middleware.Auth.Guards.{Admitted, guard_route_complete}
use campusops.Login.{
  Account, Claims, Backend, Reply, signed_in, invalid_credentials, after_failure, lock_at, login,
  login_found, unlocked, compared, reset, claims_of, sign_token,
}
use campusops.Login.Lockout.{Answers}

-- The part of a token that the guards read.
abbrev pub session : Claims → Payload
session c = record { id = c.id; role = c.role; department_id = c.department_id }

module _ {S : Type 0} (db : Backend S) where
  -- A sign-in ran: the account was active and unlocked, the password matched, the counters were set
  -- back, and the token is the account's.
  pub record SignedIn (now : ℕ) (password : String) (a : Account) (token : Text) (c : Claims)
      (s t : S) : Type 0 where
    pub active : a.is_active ≡ true
    pub free : lock_at now a.locked_until ≡ none
    pub matched : S
    pub right : db.compare password a.password_hash s ≡ (ok true, matched)
    pub counters : db.update a.id reset matched ≡ (ok tt, t)
    pub own : c ≡ claims_of a
    pub signed : db.sign c ≡ ok token

  compared_inv :
      (later : ℕ) (a : Account) (b : Bool) (token : Text) (c : Claims) (u t : S)
      → compared db later a b u ≡ (ok (signed_in token c), t)
      → (b ≡ true)
        × (db.update a.id reset u ≡ (ok tt, t))
        × (c ≡ claims_of a)
        × (db.sign c ≡ ok token)
  unfolding compared
  compared_inv later a false token c u t h =
      let (x, v, done, rest) =
        >>=-eq-ok (db.update a.id (after_failure later a))
          (λ (x : Unit {0}). pure invalid_credentials) u h in
      cc
  compared_inv later a true token c u t h =
      let (x, v, done, rest) =
        >>=-eq-ok (db.update a.id reset) (λ (x : Unit {0}). sign_token db signed_in (claims_of a)) u
          h in
      let (tok, w, made, last) =
        >>=-eq-ok (λ (s : S). (db.sign (claims_of a), s))
          (λ (tok : Text). pure (signed_in tok (claims_of a))) v rest in
      let own : c ≡ claims_of a = cc in
      let signed : db.sign (claims_of a) ≡ ok token = cc in
      let same : v ≡ t = cc in (refl, done ∙ cc, own, rw own signed)

  unlocked_inv :
      (now later : ℕ) (password : String) (a : Account) (o : Option ℕ) (token : Text) (c : Claims)
      (s t : S)
      → a.is_active ≡ true
      → lock_at now a.locked_until ≡ o
      → unlocked db later password a o s ≡ (ok (signed_in token c), t)
      → SignedIn now password a token c s t
  unfolding unlocked
  unlocked_inv now later password a (some l) token c s t active free h = cc
  unlocked_inv now later password a none token c s t active free h =
      let (b, u, right, rest) =
        >>=-eq-ok (db.compare password a.password_hash) (compared db later a) s h in
      let (good, counters, own, signed) = compared_inv later a b token c u t rest in
      record {
        active = active;
        free = free;
        matched = u;
        right = rw good at right;
        counters = counters;
        own = own;
        signed = signed;
      }

  gate_inv :
      (b : Bool) (m : Exec S Thrown Reply) (token : Text) (c : Claims) (s t : S)
      → (if not b then pure invalid_credentials else m) s ≡ (ok (signed_in token c), t)
      → (b ≡ true) × (m s ≡ (ok (signed_in token c), t))
  gate_inv true m token c s t h = (refl, h)
  gate_inv false m token c s t h = cc

  found_inv :
      (now later : ℕ) (password : String) (o : Option Account) (token : Text) (c : Claims) (s t : S)
      → login_found db now later password o s ≡ (ok (signed_in token c), t)
      → (a : Account) × (o ≡ some a) × SignedIn now password a token c s t
  unfolding login_found
  found_inv now later password none token c s t h = cc
  found_inv now later password (some a) token c s t h =
      let (active, went) =
        gate_inv a.is_active (unlocked db later password a (lock_at now a.locked_until)) token c s t
          h in
      (
        a,
        refl,
        unlocked_inv now later password a (lock_at now a.locked_until) token c s t active refl went,
      )

  -- An answer that signs in comes of an account under that email address that was active and not
  -- locked, whose password matched and whose counters were then set back. A request with its token
  -- reaches the handler of every route that admits the account's role, as that account, when
  -- verifying the token gives what it was signed with.
  pub login_admits :
      (rows : S → String → Option Account)
      → Answers db rows
      → (verify : Text → Result String Payload)
      → (now later : ℕ) (email password : String) (token : Text) (c : Claims) (s t : S)
      → (db.sign c ≡ ok token → (is_empty token ≡ false) × (verify token ≡ ok (session c)))
      → (allowed : List UserRole) (req : Request)
      → login db now later email password s ≡ (ok (signed_in token c), t)
      → req.auth_header ≡ some (codes "Bearer " ++ token)
      → any (is_role c.role) allowed ≡ true
      → (a : Account) × (rows s email ≡ some a)
        × SignedIn now password a token c s t
        × (guard_route verify allowed req
            ≡ proceed (record req { user = some (session (claims_of a)) }))
  unfolding login
  login_admits rows laws verify now later email password token c s t keys allowed req h header
        role =
      let (o, u, looked, rest) =
        >>=-eq-ok (db.find_by_email email) (login_found db now later password) s h in
      let read : ◌≡◌ {A = Result Thrown (Option Account) × S} (ok (rows s email), s) (ok o, u) =
        sym (laws.reads email s) ∙ looked in
      let here : u ≡ s = cc in
      let row : rows s email ≡ o = cc in
      let (a, is, done) = found_inv now later password o token c s t (rw here at rest) in
      let (given, verifies) = keys done.signed in
      let admitted : Admitted verify allowed req (session c) = record {
        token = token;
        header = header;
        given = given;
        verifies = verifies;
        role_listed = role;
      } in
      (
        a,
        row ∙ is,
        done,
        guard_route_complete verify allowed req (session c) admitted
            ∙ ap (λ d. proceed (record req { user = some (session d) })) done.own,
      )
