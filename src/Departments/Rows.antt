-- ===== src/Departments/Rows.antt =====
-- What holds of the rows of a query holds of the staff that are made of them.
use campusops.Common.{◌≡◌, String, true, false, Option, List, [], ◌∷◌, ◌++◌, map, All}
use campusops.Common.Exec.{ok, pure, ◌>>=◌, >>=-eq-ok}
use campusops.User.{UserRole, maintenance, security, Staff}
use campusops.Incident.{Category}
use campusops.Departments.{
  StaffRow, RoleConfig, Where, DepartmentTables, build_where, to_staff, find_eligible_staff,
  query_staff, category_role_map,
}

module _ {S : Type 0} (tables : DepartmentTables S) (J : S → Type 0) (P : StaffRow → Type 0) where
  -- A query keeps `J`, and under it finds rows that satisfy `P` only.
  abbrev pub Finds : Type 0
  Finds =
      (w : Where) (s t : S) (rows : List StaffRow)
      → J s
      → tables.find_many w s ≡ (ok rows, t)
      → J t × All P rows

  append : (xs ys : List StaffRow) → All P xs → All P ys → All P (xs ++ ys)
  append [] ys p q = q
  append (x ∷ xs) ys (p, ps) q = (p, append xs ys ps q)

  both_rows :
      Finds
      → (d : String) (s t : S) (rows : List StaffRow) → J s
      → (tables.find_many (build_where maintenance d true) >>= λ ms.
            tables.find_many (build_where security d false) >>= λ ss. pure (ms ++ ss))
          s
        ≡ (ok rows, t)
      → All P rows
  both_rows finds d s t rows j h =
      let two = λ (ms : List StaffRow).
        tables.find_many (build_where security d false) >>= λ ss. pure (ms ++ ss) in
      let (ms, v, first, more) =
        >>=-eq-ok (tables.find_many (build_where maintenance d true)) two s h in
      let (ss, w, second, last) =
        >>=-eq-ok (tables.find_many (build_where security d false)) (λ ss. pure (ms ++ ss)) v
          more in
      let (j', p) = finds (build_where maintenance d true) s v ms j first in
      let (j'', q) = finds (build_where security d false) v w ss j' second in
      let merged : ms ++ ss ≡ rows = cc in rw (← merged) (append ms ss p q)

  query_rows :
      Finds
      → (d : String) (config : RoleConfig) (roles : List UserRole) (s t : S) (rows : List StaffRow)
      → J s
      → query_staff tables d config roles s ≡ (ok rows, t)
      → All P rows
  unfolding query_staff
  query_rows finds d config [] s t rows j h = both_rows finds d s t rows j h
  query_rows finds d config (role ∷ []) s t rows j h =
      (finds (build_where role d config.scoped_to_dept) s t rows j h).1
  query_rows finds d config (r ∷ r' ∷ rs) s t rows j h = both_rows finds d s t rows j h

  made :
      (Q : Staff → Type 0)
      → ((r : StaffRow) → P r → Q (to_staff r))
      → (rows : List StaffRow) → All P rows
      → All Q (map to_staff rows)
  made Q h [] p = tt
  made Q h (r ∷ rows) (p, ps) = (h r p, made Q h rows ps)

  pub find_eligible_staff-rows :
      (Q : Staff → Type 0)
      → ((r : StaffRow) → P r → Q (to_staff r))
      → Finds
      → (d : String) (c : Option Category) (s t : S) (staff : List Staff) → J s
      → find_eligible_staff tables d c s ≡ (ok staff, t)
      → All Q staff
  unfolding find_eligible_staff
  find_eligible_staff-rows Q make finds d c s t staff j h =
      let config = category_role_map c in
      let (rows, u, found, rest) =
        >>=-eq-ok (query_staff tables d config config.roles) (λ rows. pure (map to_staff rows)) s
          h in
      let same : map to_staff rows ≡ staff = cc in
      rw (← same) (made Q make rows (query_rows finds d config config.roles s u rows j found))
