-- ===== src/Departments/Eligible.antt =====
-- Whom an incident is assigned to, over the department repository and its queries.
use campusops.Common.{
  ℕ, suc, ◌+◌, ◌≡◌, refl, sym, ap, ◌∙◌, arith, String, Bool, true, false, ◌&&◌, ◌||◌, Option, none,
  some, List, [], ◌∷◌, ◌++◌, map, All, get_elem?,
}
use mathlib.Core.List.{Memᴰ}
use campusops.Common.Exec.{ok, pure, ◌>>=◌, >>=-eq-ok}
use campusops.User.{maintenance, security, Staff, is_suspended}
use campusops.Incident.{
  Category, maintenance_category, security_category, infrastructure_category, cleanliness_category,
  emergency_category, other_category, World, Event, StaffRef, incident_assigned, is_role,
  same_department,
}
use campusops.Service.{Loaded, IncidentRepo, refs, loaded_world, assign_incident}
use campusops.Service.Outcomes.{Stored}
use campusops.Service.Assignment.{Assigned, assign_incident_sound}
use campusops.Departments.{
  StaffRow, Where, DepartmentTables, department_repo, meets, build_where, to_staff,
  find_eligible_staff, query_staff, category_role_map,
}

-- A member of the department's own team, and a security officer of the campus.
abbrev pub in_team : String → Staff → Bool
in_team d s = is_role s.role maintenance && same_department s.department_id d

abbrev pub is_guard : Staff → Bool
is_guard s = is_role s.role security

-- Whether the staff member deals with incidents of the category in the department.
abbrev pub handles : Option Category → String → Staff → Bool
handles (some maintenance_category) d s = in_team d s
handles (some cleanliness_category) d s = in_team d s
handles (some infrastructure_category) d s = in_team d s
handles (some security_category) d s = is_guard s
handles (some emergency_category) d s = is_guard s
handles _ d s = in_team d s || is_guard s

abbrev pub IsFit : Option Category → String → Staff → Type 0
IsFit c d s = (handles c d s ≡ true) × (is_suspended s.staff_state ≡ false)

team_row :
    (d : String) (r : StaffRow)
    → meets (build_where maintenance d true) r ≡ true
    → (in_team d (to_staff r) ≡ true) × (is_suspended (to_staff r).staff_state ≡ false)
unfolding meets build_where to_staff
team_row d r h = (ground arith, ground arith)

guard_row :
    (d : String) (r : StaffRow)
    → meets (build_where security d false) r ≡ true
    → (is_guard (to_staff r) ≡ true) × (is_suspended (to_staff r).staff_state ≡ false)
unfolding meets build_where to_staff
guard_row d r h = (ground arith, ground arith)

module _ {A B : Type 0} (P : A → Type 0) (Q : B → Type 0) where
  All-map : (f : A → B) → ((a : A) → P a → Q (f a)) → (xs : List A) → All P xs → All Q (map f xs)
  All-map f h [] p = tt
  All-map f h (x ∷ xs) (p, ps) = (h x p, All-map f h xs ps)

All-append : {A : Type 0} (P : A → Type 0) (xs ys : List A) → All P xs → All P ys → All P (xs ++ ys)
All-append P [] ys p q = q
All-append P (x ∷ xs) ys (p, ps) q = (p, All-append P xs ys ps q)

map_append : (xs ys : List StaffRow) → map to_staff (xs ++ ys) ≡ map to_staff xs ++ map to_staff ys
map_append [] ys = refl
map_append (x ∷ xs) ys = ap (λ zs. to_staff x ∷ zs) (map_append xs ys)

-- A reference to one of the staff leads to a member of which what holds of all of them holds.
member :
    (P : Staff → Type 0) (k : ℕ) (es : List Staff) (r : StaffRef)
    → All P es
    → Memᴰ r (refs k es)
    → (j : ℕ) × (e : Staff) × (r ≡ suc (k + j)) × (get_elem? es j ≡ some e) × P e
member P k [] r p m = elim m [ ]
member P k (e ∷ es) r (p, ps) (Memᴰ.head h) = (0, e, h ∙ omega arith, refl, p)
member P k (e ∷ es) r (p, ps) (Memᴰ.tail m) =
    let (j, f, same, at, q) = member P (suc k) es r ps m in (suc j, f, same ∙ omega arith, at, q)

module _ {S : Type 0} (tables : DepartmentTables S) where
  -- What the code relies on of the query: each row that it returns meets its `where`.
  pub record Selects : Type 0 where
    pub selected :
        (w : Where) (s t : S) (rows : List StaffRow)
        → tables.find_many w s ≡ (ok rows, t)
        → All (λ r. meets w r ≡ true) rows

  team_query :
      Selects
      → (c : Option Category) (d : String) (s t : S) (rows : List StaffRow)
      → ((e : Staff) → in_team d e ≡ true → handles c d e ≡ true)
      → tables.find_many (build_where maintenance d true) s ≡ (ok rows, t)
      → All (IsFit c d) (map to_staff rows)
  team_query laws c d s t rows fits found =
      All-map (λ r. meets (build_where maintenance d true) r ≡ true) (IsFit c d) to_staff
        (λ r h. let (a, b) = team_row d r h in (fits (to_staff r) a, b)) rows
        (laws.selected (build_where maintenance d true) s t rows found)

  guard_query :
      Selects
      → (c : Option Category) (d : String) (s t : S) (rows : List StaffRow)
      → ((e : Staff) → is_guard e ≡ true → handles c d e ≡ true)
      → tables.find_many (build_where security d false) s ≡ (ok rows, t)
      → All (IsFit c d) (map to_staff rows)
  guard_query laws c d s t rows fits found =
      All-map (λ r. meets (build_where security d false) r ≡ true) (IsFit c d) to_staff
        (λ r h. let (a, b) = guard_row d r h in (fits (to_staff r) a, b)) rows
        (laws.selected (build_where security d false) s t rows found)

  single :
      (w : Where) (s t : S) (staff : List Staff)
      → (tables.find_many w >>= λ rows. pure (map to_staff rows)) s ≡ (ok staff, t)
      → (rows : List StaffRow) × (u : S) × (tables.find_many w s ≡ (ok rows, u))
        × (staff ≡ map to_staff rows)
  single w s t staff h =
      let (rows, u, found, rest) =
        >>=-eq-ok (tables.find_many w) (λ rows. pure (map to_staff rows)) s h in
      (rows, u, found, cc)

  both_queries :
      Selects
      → (c : Option Category) (d : String) (s t : S) (staff : List Staff)
      → ((e : Staff) → in_team d e ≡ true → handles c d e ≡ true)
      → ((e : Staff) → is_guard e ≡ true → handles c d e ≡ true)
      → ((tables.find_many (build_where maintenance d true) >>= λ ms.
              tables.find_many (build_where security d false) >>= λ ss. pure (ms ++ ss))
            >>= λ rows. pure (map to_staff rows))
          s
        ≡ (ok staff, t)
      → All (IsFit c d) staff
  both_queries laws c d s t staff team guard h =
      let two = λ (ms : List StaffRow).
        tables.find_many (build_where security d false) >>= λ ss. pure (ms ++ ss) in
      let (rows, u, found, rest) =
        >>=-eq-ok (tables.find_many (build_where maintenance d true) >>= two)
          (λ rows. pure (map to_staff rows)) s h in
      let (ms, v, first, more) =
        >>=-eq-ok (tables.find_many (build_where maintenance d true)) two s found in
      let (ss, w, second, last) =
        >>=-eq-ok (tables.find_many (build_where security d false)) (λ ss. pure (ms ++ ss)) v
          more in
      let merged : ms ++ ss ≡ rows = cc in
      let staffed : map to_staff rows ≡ staff = cc in
      let same : staff ≡ map to_staff ms ++ map to_staff ss =
        sym staffed ∙ ap (map to_staff) (sym merged) ∙ map_append ms ss in
      rw same (
        All-append (IsFit c d) (map to_staff ms) (map to_staff ss)
          (team_query laws c d s v ms team first) (guard_query laws c d v w ss guard second))

  find_eligible_staff_sound :
      Selects
      → (d : String) (c : Option Category) (s t : S) (staff : List Staff)
      → find_eligible_staff tables d c s ≡ (ok staff, t)
      → All (IsFit c d) staff
  unfolding find_eligible_staff query_staff category_role_map
  find_eligible_staff_sound laws d (some maintenance_category) s t staff h =
      let (rows, u, found, same) = single (build_where maintenance d true) s t staff h in
      rw same (team_query laws (some maintenance_category) d s u rows (λ e a. a) found)
  find_eligible_staff_sound laws d (some cleanliness_category) s t staff h =
      let (rows, u, found, same) = single (build_where maintenance d true) s t staff h in
      rw same (team_query laws (some cleanliness_category) d s u rows (λ e a. a) found)
  find_eligible_staff_sound laws d (some infrastructure_category) s t staff h =
      let (rows, u, found, same) = single (build_where maintenance d true) s t staff h in
      rw same (team_query laws (some infrastructure_category) d s u rows (λ e a. a) found)
  find_eligible_staff_sound laws d (some security_category) s t staff h =
      let (rows, u, found, same) = single (build_where security d false) s t staff h in
      rw same (guard_query laws (some security_category) d s u rows (λ e a. a) found)
  find_eligible_staff_sound laws d (some emergency_category) s t staff h =
      let (rows, u, found, same) = single (build_where security d false) s t staff h in
      rw same (guard_query laws (some emergency_category) d s u rows (λ e a. a) found)
  find_eligible_staff_sound laws d (some other_category) s t staff h =
      both_queries laws (some other_category) d s t staff (λ e a. ground arith)
        (λ e a. ground arith) h
  find_eligible_staff_sound laws d none s t staff h =
      both_queries laws none d s t staff (λ e a. ground arith) (λ e a. ground arith) h

candidate_suits :
    (l : Loaded) (eligible : List Staff) (r : StaffRef) (c : Option Category) (d : String)
    → All (IsFit c d) eligible
    → Memᴰ r (refs 0 eligible)
    → IsFit c d ((loaded_world l eligible).staff r)
candidate_suits l eligible r c d fits m =
    let (j, e, same, at, fit) = member (IsFit c d) 0 eligible r fits m in
    let place : r ≡ suc j = same ∙ omega arith in rw (place, at) fit

module _ {S : Type 0} (repo : IncidentRepo S) (tables : DepartmentTables S)
    (publish : Event → World → S → World × S) (zone : ℕ → ℕ) (now : ℕ) where
  -- When `assignIncident` returns over the department repository, the incident that it loaded, saved
  -- and announced went to a staff member who deals with its category, a member of its department's
  -- team or, for security and emergencies, a security officer, and for the rest either, when the
  -- rows of a query meet its conditions.
  pub assign_incident_fits :
      Selects tables
      → (id : String) (v : World) (s t : S)
      → assign_incident repo (department_repo tables) publish zone now id s ≡ (ok (some v), t)
      → (l : Loaded) × (u : S) × (eligible : List Staff) × (r : StaffRef) × (w : World) × (x : S)
        × (repo.find_by_id id s ≡ (ok (some l), u))
        × Assigned repo (department_repo tables) publish zone now l eligible r w
        × Stored repo (department_repo tables) publish zone now (incident_assigned r) w x v t
        × IsFit l.incident.category l.incident.department_id ((loaded_world l eligible).staff r)
  assign_incident_fits laws id v s t h =
      let (l, u, found, _, (eligible, y, x, r, w, listed, assigned, stored)) =
        assign_incident_sound repo (department_repo tables) publish zone now id v s t h in
      let fits =
        find_eligible_staff_sound tables laws l.incident.department_id l.incident.category y x
          eligible listed in
      (
        l,
        u,
        eligible,
        r,
        w,
        x,
        found,
        assigned,
        stored,
        candidate_suits l eligible r l.incident.category l.incident.department_id fits
            assigned.candidate,
      )
