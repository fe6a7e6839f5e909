-- ===== src/Login/OpenDoor.antt =====
-- Whom the registration lets in: the route is open to everyone, and the role is the body's.
use campusops.Common.{◌≡◌, refl, String, true, false, none, some, List, ◌++◌, any}
use campusops.Common.Exec.{Result, ok}
use campusops.Common.Text.{Text, codes, is_empty}
use campusops.User.{UserRole}
use campusops.Incident.{is_role}
use campusops.Middleware.Auth.{Payload, Request, proceed, guard_route}
use campusops.Middleware.Auth.Guards.{Admitted, guard_route_complete}
use campusops.Login.{
  Claims, Backend, Registration, NewAccount, registered, role_fields, register, register_new,
}
use campusops.Login.Session.{session}

-- The row that a registration asks for.
abbrev pub asked : Registration → (password_hash : String) → NewAccount
asked r h = record {
  name = r.name;
  email = r.email;
  password_hash = h;
  role = r.role;
  department_id = r.department_id;
  is_active = true;
  fields = role_fields r.role r.fields;
}

module _ {S : Type 0} (db : Backend S) where
  -- The database gives back the role that it was given.
  abbrev pub KeepsRole : Type 0
  KeepsRole = (n : NewAccount) (c : Claims) (s t : S) → db.create n s ≡ (ok c, t) → c.role ≡ n.role

  -- Anyone who registers an address that is not taken is signed in with the role that they name,
  -- and the token opens every route that admits the role, those of the administrators included, where
  -- the database keeps the role and verifying the token gives what it was signed with.
  pub register_admits :
      (verify : Text → Result String Payload) (r : Registration) (h : String) (c : Claims)
      (token : Text) (s s₁ s₂ t : S) (allowed : List UserRole) (req : Request)
      → KeepsRole
      → db.find_by_email r.email s ≡ (ok none, s₁)
      → db.hash r.password s₁ ≡ (ok h, s₂)
      → db.create (asked r h) s₂ ≡ (ok c, t)
      → db.sign c ≡ ok token
      → is_empty token ≡ false
      → verify token ≡ ok (session c)
      → any (is_role r.role) allowed ≡ true
      → req.auth_header ≡ some (codes "Bearer " ++ token)
      → (register db r s ≡ (ok (registered token c), t))
        × (guard_route verify allowed req ≡ proceed (record req { user = some (session c) }))
  unfolding register register_new
  register_admits verify r h c token s s₁ s₂ t allowed req keeps free hashed made signed given good
        role header =
      let own = keeps (asked r h) c s₂ t made in
      let admitted : Admitted verify allowed req (session c) = record {
        token = token;
        header = header;
        given = given;
        verifies = good;
        role_listed = rw own role;
      } in
      (
        rw (free, hashed, made, signed) refl,
        guard_route_complete verify allowed req (session c) admitted,
      )
