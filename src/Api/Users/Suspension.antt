-- ===== src/Api/Users/Suspension.antt =====
-- A suspension, and whom an incident may be assigned to after it.
use campusops.Common.{
  ◌≡◌, refl, sym, ap, ◌∙◌, arith, String, true, false, not, ◌&&◌, Option, none, some, List, All,
  str_eq, Bool-cases, inl, inr,
}
use campusops.Common.Exec.{ok, pure, >>=-eq-ok}
use campusops.User.{Staff, StaffState, suspended, admin, maintenance, security}
use campusops.Incident.{Category, is_role}
use campusops.Departments.{StaffRow, Where, DepartmentTables, meets, to_staff, find_eligible_staff}
use campusops.Departments.Rows.{find_eligible_staff-rows}
use campusops.Realtime.{SocketUser}
use campusops.Api.Users.{
  UserClient, UserRow, profile, SafeUser, update_staff_state, state_found, state_given,
  read_staff_state,
}

-- A row meets the conditions of a query, and has the state SUSPENDED if it is the user's.
abbrev pub Listed : String → StaffRow → Type 0
Listed id r =
    ((w : Where) × (meets w r ≡ true)) × (str_eq r.id id ≡ true → r.staff_state ≡ some suspended)

listed_other : (id : String) (r : StaffRow) → Listed id r → str_eq (to_staff r).id id ≡ false
unfolding to_staff meets
listed_other id r ((w, met), state) = elim (Bool-cases (str_eq r.id id)) [
  | inr f ↦ f
  | inl t ↦ let gone = state t in ground arith
]

-- Who is suspended in the database: a suspension is recorded, a query changes nothing of it, and
-- finds rows that meet its conditions and carry the state.
pub record RecordsState {S : Type 0} (client : UserClient S) (tables : DepartmentTables S)
    (Suspended : String → S → Type 0) : Type 0 where
  pub recorded :
      (id : String) (s t : S) (row : UserRow)
      → client.update_staff_state id suspended s ≡ (ok row, t)
      → Suspended id t
  pub found :
      (id : String) (w : Where) (s t : S) (rows : List StaffRow)
      → Suspended id s
      → tables.find_many w s ≡ (ok rows, t)
      → Suspended id t × All (Listed id) rows

-- What a change of state that was answered with a profile has done, and on what conditions.
pub record Changed {S : Type 0} (client : UserClient S) (u : SocketUser) (id : String)
    (state : StaffState) (p : SafeUser) (s t : S) : Type 0 where
  pub by_admin : is_role u.role admin ≡ true
  pub old : UserRow
  pub read : S
  pub was_there : client.find id s ≡ (ok (some old), read)
  pub of_staff :
      (not (is_role old.safe.role maintenance) && not (is_role old.safe.role security)) ≡ false
  pub new : UserRow
  pub stored : client.update_staff_state id state read ≡ (ok new, t)
  pub answer : p ≡ new.safe

module _ {S : Type 0} (client : UserClient S) (u : SocketUser) (id : String) where
  state_found_inv :
      (state : StaffState) (o : Option UserRow) (p : SafeUser) (s v t : S)
      → is_role u.role admin ≡ true
      → client.find id s ≡ (ok o, v)
      → state_found client id state o v ≡ (ok (profile p), t)
      → Changed client u id state p s t
  unfolding state_found
  state_found_inv state none p s v t a f h = cc
  state_found_inv state (some old) p s v t a f h =
      elim (Bool-cases
        (not (is_role old.safe.role maintenance) && not (is_role old.safe.role security))) [
          | inl other ↦ cc (rw other at h)
          | inr staff ↦
              let (new, w, stored, rest) =
                >>=-eq-ok (client.update_staff_state id state) (λ x. pure (profile x.safe)) v
                  (rw staff at h) in
              let done : w ≡ t = cc in
              record {
                by_admin = a;
                old = old;
                read = v;
                was_there = f;
                of_staff = staff;
                new = new;
                stored = rw (← done) stored;
                answer = cc;
              }
        ]

  given_inv :
      (o : Option StaffState) (p : SafeUser) (s t : S)
      → is_role u.role admin ≡ true
      → state_given client id o s ≡ (ok (profile p), t)
      → (state : StaffState) × (o ≡ some state) × Changed client u id state p s t
  unfolding state_given
  given_inv none p s t a h = cc
  given_inv (some state) p s t a h =
      let (o, v, found, rest) = >>=-eq-ok (client.find id) (state_found client id state) s h in
      (state, refl, state_found_inv state o p s v t a found rest)

  -- A state is changed only by an administrator, to one of the three states, and of a user who is
  -- there and is maintenance staff or a security officer; the answer shows the row that was stored.
  pub update_staff_state_sound :
      (text : String) (p : SafeUser) (s t : S)
      → update_staff_state client u id text s ≡ (ok (profile p), t)
      → (state : StaffState) × (read_staff_state text ≡ some state)
        × Changed client u id state p s t
  unfolding update_staff_state
  update_staff_state_sound text p s t h = elim (Bool-cases (is_role u.role admin)) [
    | inr other ↦ cc (rw other at h)
    | inl a ↦ given_inv (read_staff_state text) p s t a (rw a at h)
  ]

  is_suspension :
      {state : StaffState} → read_staff_state "SUSPENDED" ≡ some state → state ≡ suspended
  unfolding read_staff_state
  is_suspension h = cc

  -- Once the administrator has suspended a staff member, the candidates for any incident are others,
  -- provided that the database records the suspension and its queries meet their conditions.
  pub suspended_not_eligible :
      (tables : DepartmentTables S) (Suspended : String → S → Type 0)
      → RecordsState client tables Suspended
      → (p : SafeUser) (s t v : S) (d : String) (c : Option Category) (staff : List Staff)
      → update_staff_state client u id "SUSPENDED" s ≡ (ok (profile p), t)
      → find_eligible_staff tables d c t ≡ (ok staff, v)
      → All (λ e. str_eq e.id id ≡ false) staff
  suspended_not_eligible tables Suspended laws p s t v d c staff h k =
      let (state, is, changed) = update_staff_state_sound "SUSPENDED" p s t h in
      let same : state ≡ suspended = is_suspension is in
      let now =
        laws.recorded id changed.read t changed.new
          (ap (λ z. client.update_staff_state id z changed.read) (sym same) ∙ changed.stored) in
      find_eligible_staff-rows tables (Suspended id) (Listed id) (λ e. str_eq e.id id ≡ false)
        (listed_other id) (laws.found id) d c t v staff now k
