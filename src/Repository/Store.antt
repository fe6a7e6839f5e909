-- ===== src/Repository/Store.antt =====
-- The repository as a map from ids to incidents.
-- `Answers` is what the code relies on of the database client: a look-up shows the row and leaves
-- the tables, and an update that returns has written the columns of one row, and no other row.
use campusops.Common.{
  ◌≡◌, refl, sym, ap, ◌∙◌, String, true, false, Option, none, some, arith, str_eq, str_eq_iff,
  if◌then◌else◌, Bool-cases, inl, inr,
}
use campusops.Common.Exec.{Result, ok, pure, ◌>>◌, >>=-eq-ok}
use campusops.Errors.{Thrown}
use campusops.User.{Staff}
use campusops.Sla.{SlaPolicy}
use campusops.Incident.{Incident}
use campusops.Service.{Loaded}
use campusops.Repository.{
  Columns, AssigneeRow, Row, IncidentTable, to_columns, to_document, to_entity, given, hydrate,
  find_by_id, save, save_as,
}
use campusops.Repository.Reload.{IsStorable, reloaded, row_of, to_entity-to_columns}

written_row :
    (i : Incident) (id : String) (r : Row) (users : Option String → Option AssigneeRow)
    → r.id ≡ id
    → r.creator_id ≡ i.creator_id
    → record r { columns = to_columns i; assigned_to = users (to_columns i).assigned_to_id }
      ≡ row_of id (users i.assigned_to_id) i
unfolding to_columns
written_row i id r users own creator = ground arith

module _ {S : Type 0} (table : IncidentTable S) where
  -- `rows` is the table of incidents in a state, and `users` the assignee that a row joins.
  pub record Answers (rows : S → String → Option Row)
      (users : S → Option String → Option AssigneeRow) : Type 0 where
    pub reads : (id : String) (s : S) → table.find_unique id s ≡ (ok (rows s id), s)
    pub updates :
        (id : String) (c : Columns) (s t : S) (r : Row)
        → rows s id ≡ some r
        → table.update id c s ≡ (ok tt, t)
        → (k : String)
        → rows t k ≡ (
            if str_eq k id
            then some (record r { columns = c; assigned_to = users t c.assigned_to_id })
            else rows s k)
    pub keyed : (id : String) (s : S) (r : Row) → rows s id ≡ some r → r.id ≡ id

  module _ (rows : S → String → Option Row) (users : S → Option String → Option AssigneeRow)
      (nobody : Staff) where
    -- The incidents that a state holds, as the repository shows them.
    abbrev pub seen : Option Row → Option Incident
    seen none = none
    seen (some r) = some (to_entity nobody r).incident

    abbrev pub incident_of : Option Loaded → Option Incident
    incident_of none = none
    incident_of (some l) = some l.incident

    seen-hydrate : (o : Option Row) → incident_of (hydrate table nobody o) ≡ seen o
    seen-hydrate none = refl
    seen-hydrate (some r) = refl

    -- In the state `s` a look-up of `k` returns the incident `o`, or null, and changes nothing.
    abbrev pub Shows : S → String → Option Incident → Type 0
    Shows s k o =
        (l : Option Loaded) × (find_by_id table nobody k s ≡ (ok l, s)) × (incident_of l ≡ o)

    pub shown_of_rows :
        Answers rows users
        → (s : S) (k : String) {o : Option Incident} → seen (rows s k) ≡ o
        → Shows s k o
    unfolding find_by_id
    shown_of_rows a s k e =
        (hydrate table nobody (rows s k), rw (a.reads k s) refl, seen-hydrate (rows s k) ∙ e)

    pub rows_of_shown :
        Answers rows users
        → (s : S) (k : String) {o : Option Incident} → Shows s k o
        → seen (rows s k) ≡ o
    unfolding find_by_id
    rows_of_shown a s k (l, found, e) =
        let looked : ◌≡◌ {A = Result Thrown (Option Loaded) × S}
            (ok (hydrate table nobody (rows s k)), s) (ok l, s) =
          rw (a.reads k s) at found in
        let same : hydrate table nobody (rows s k) ≡ l = cc in
        sym (seen-hydrate (rows s k)) ∙ ap incident_of same ∙ e

    updated :
        (i : Incident) (id key : String) (s t : S)
        → str_eq id "" ≡ false
        → i.id ≡ some id
        → save table i s ≡ (ok key, t)
        → (key ≡ id) × (table.update id (to_columns i) s ≡ (ok tt, t))
    unfolding save save_as to_document
    updated i id key s t h e saved =
        let named : given i.id ≡ some id = rw (e, h) in
        let run : (table.update id (to_columns i) >> pure id) s ≡ (ok key, t) =
          ap (λ (o : Option String). save_as table o (to_document i) s) (sym named) ∙ saved in
        let (u, x, wrote, back) =
          >>=-eq-ok (table.update id (to_columns i)) (λ (u : Unit {0}). pure id) s run in
        (cc, wrote ∙ cc)

    saved_row :
        Answers rows users
        → (i : Incident) (p : SlaPolicy) (id key : String) (s t : S) (r : Row)
        → str_eq id "" ≡ false
        → i.id ≡ some id
        → IsStorable i p
        → rows s id ≡ some r
        → r.creator_id ≡ i.creator_id
        → save table i s ≡ (ok key, t)
        → (k : String)
        → seen (rows t k) ≡ (
            if str_eq k id
            then some (reloaded id (users t i.assigned_to_id) i)
            else seen (rows s k))
    saved_row a i p id key s t r h e st found creator saved k =
        let (_, wrote) = updated i id key s t h e saved in
        let row = a.updates id (to_columns i) s t r found wrote k in
        let own = a.keyed id s r found in
        let back = to_entity-to_columns nobody i p id (users t i.assigned_to_id) st in
        let same : record r {
          columns = to_columns i;
          assigned_to = users t (to_columns i).assigned_to_id;
        }
            ≡ row_of id (users t i.assigned_to_id) i =
          written_row i id r (users t) own creator in
        elim (Bool-cases (str_eq k id)) [
          | inl here ↦ ap seen row ∙ rw (here, same) (ap some back)
          | inr elsewhere ↦ ap seen row ∙ rw elsewhere refl
        ]

    -- When an incident that the table has, under the creator that it has, is saved, the key returned
    -- is its id, and a look-up of that id shows what is left of the incident when it is loaded again.
    -- A look-up of any other id shows what it showed before.
    pub find_by_id-save :
        Answers rows users
        → (i : Incident) (p : SlaPolicy) (id key : String) (s t : S) (r : Row)
        → str_eq id "" ≡ false
        → i.id ≡ some id
        → IsStorable i p
        → rows s id ≡ some r
        → r.creator_id ≡ i.creator_id
        → save table i s ≡ (ok key, t)
        → (key ≡ id)
          × Shows t id (some (reloaded id (users t i.assigned_to_id) i))
          × ((k : String) (o : Option Incident) → str_eq k id ≡ false → Shows s k o → Shows t k o)
    find_by_id-save a i p id key s t r h e st found creator saved =
        let shown = saved_row a i p id key s t r h e st found creator saved in
        let own : str_eq id id ≡ true = (str_eq_iff id id).1 refl in
        (
          (updated i id key s t h e saved).0,
          shown_of_rows a t id (shown id ∙ rw own refl),
          λ k o other was. shown_of_rows a t k (shown k ∙ rw other (rows_of_shown a s k was)),
        )
