-- ===== src/Repository/Samples.antt =====
-- A table of one row, for the instances of the theorems.
use campusops.Common.{
  ◌≡◌, refl, String, Bool, true, false, Option, none, some, str_eq, str_eq_iff, if◌then◌else◌, sym,
  ap, ◌∙◌,
}
use campusops.Common.Exec.{Result, ok}
use campusops.Errors.{Thrown}
use campusops.User.{Staff}
use campusops.Samples.{leaking_tap, day_worker}
use campusops.Repository.{Columns, AssigneeRow, Row, IncidentTable}
use campusops.Repository.Reload.{row_of}
use campusops.Repository.Store.{Answers}

abbrev pub tap_row : Row
tap_row = row_of "I1" none leaking_tap

abbrev pub nobody : Staff
nobody = day_worker "none" 0

abbrev pub write : Columns → Row → Row
write c r = record r { columns = c; assigned_to = none }

abbrev pub one_row : IncidentTable Row
one_row = record {
  find_unique = λ id s. (ok (if str_eq id s.id then some s else none), s);
  update = λ id c s. (ok tt, if str_eq id s.id then write c s else s);
  create = λ doc s. (ok "new", s);
}

abbrev pub row_at : Row → String → Option Row
row_at s k = if str_eq k s.id then some s else none

abbrev pub no_users : Row → Option String → Option AssigneeRow
no_users s o = none

only : Bool → Row → Option Row
only b s = if b then some s else none

only-eq : (b : Bool) (s r : Row) → only b s ≡ some r → (b ≡ true) × (s ≡ r)
unfolding only
only-eq true s r h = (refl, cc)
only-eq false s r h = cc

found_row : (id : String) (s r : Row) → row_at s id ≡ some r → (id ≡ s.id) × (s ≡ r)
unfolding only
found_row id s r h = let (t, e) = only-eq (str_eq id s.id) s r h in ((str_eq_iff id s.id).0 t, e)

written :
    (b : Bool) (c : Columns) (s t : Row)
    → b ≡ true
    → ◌≡◌ {A = Result Thrown (Unit {0}) × Row} (ok tt, if b then write c s else s) (ok tt, t)
    → write c s ≡ t
written true c s t e h = cc
written false c s t e h = cc

one_of : (b : Bool) (x y : Row) → only b x ≡ (if b then some x else only b y)
unfolding only
one_of true x y = refl
one_of false x y = refl

row_at-write :
    (id : String) (c : Columns) (s t r : Row)
    → row_at s id ≡ some r
    → one_row.update id c s ≡ (ok tt, t)
    → (k : String)
    → row_at t k ≡ (
        if str_eq k id
        then some (record r { columns = c; assigned_to = no_users t c.assigned_to_id })
        else row_at s k)
unfolding only
row_at-write id c s t r h u k =
    let (own, same) = found_row id s r h in
    let new = written (str_eq id s.id) c s t ((str_eq_iff id s.id).1 own) u in
    rw (sym new, sym same, own) (one_of (str_eq k s.id) (write c s) s)

pub one_row-Answers : Answers one_row row_at no_users
one_row-Answers = record {
  reads = λ id s. refl;
  updates = row_at-write;
  keyed = λ id s r h. sym ((found_row id s r h).0 ∙ ap (λ (q : Row). q.id) (found_row id s r h).1);
}
