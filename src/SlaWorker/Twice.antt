-- ===== src/SlaWorker/Twice.antt =====
-- Two attempts at a job, over the repository and its table.
use campusops.Common.{
  ℕ, ◌≡◌, refl, sym, ap, ◌∙◌, String, true, false, Option, none, some, [], arith, str_eq, inl, inr,
  Bool-cases,
}
use mathlib.Core.Path.{subst}
use campusops.Common.Exec.{Result, ok, >>=-eq-ok}
use campusops.User.{Staff, is_truthy}
use campusops.Sla.{SlaPolicy, from_row}
use campusops.Errors.{Thrown}
use campusops.Incident.{
  Category, maintenance_category, cleanliness_category, security_category, infrastructure_category,
  emergency_category, other_category, escalated_state, Incident, World, Event, Note,
  incident_escalated,
}
use campusops.Incident.States.{escalate}
use campusops.Validation.{IncidentQueries}
use campusops.Service.{IncidentRepo, loaded_world}
use campusops.Repository.{
  AssigneeRow, Row, IncidentTable, to_entity, incident_map, find_by_id, save,
}
use campusops.Repository.Reload.{Fits, IsStorable, reloaded}
use campusops.Repository.Store.{Answers, Shows, seen, shown_of_rows, rows_of_shown, find_by_id-save}
use campusops.SlaWorker.{process, store_escalated, reason_of}
use campusops.SlaWorker.Attempts.{is_pending, escalated, process_exact, store_escalated_lem}

policy_of : Row → SlaPolicy
policy_of r =
    from_row r.columns.priority r.columns.sla_deadline_at (some r.columns.sla_is_escalated)
      r.columns.sla_escalated_at

incident_map-Fits :
    (c : Option Category) (t : Option ℕ) → Fits (incident_map c t).0 (incident_map c t).1
unfolding incident_map
incident_map-Fits (some maintenance_category) t = refl
incident_map-Fits (some cleanliness_category) t = refl
incident_map-Fits (some security_category) t = refl
incident_map-Fits (some infrastructure_category) t = refl
incident_map-Fits (some emergency_category) t = refl
incident_map-Fits (some other_category) t = inr refl
incident_map-Fits none t = inl refl

to_entity-IsStorable :
    (nobody : Staff) (r : Row)
    → is_truthy r.columns.incident_number ≡ true
    → IsStorable (to_entity nobody r).incident (policy_of r)
unfolding to_entity incident_map from_row policy_of
to_entity-IsStorable nobody r h = record {
  numbered = h;
  located = (r.columns.location_block, refl);
  fits = incident_map-Fits r.columns.category r.columns.panic_broadcasted_at;
  policy = refl;
  same_priority = refl;
  window = refl;
}

escalate_keeps :
    (now : ℕ) (reason : Note) (w : World)
    → ((escalate now reason w).1.incident.id ≡ w.incident.id)
      × ((escalate now reason w).1.incident.creator_id ≡ w.incident.creator_id)
      × ((escalate now reason w).1.incident.class ≡ w.incident.class)
      × ((escalate now reason w).1.incident.category ≡ w.incident.category)
unfolding escalate
escalate_keeps now reason w = (ground arith, ground arith, ground arith, ground arith)

escalate-IsStorable :
    (now : ℕ) (reason : Note) (w : World) (p : SlaPolicy)
    → is_pending w.incident.state ≡ true
    → IsStorable w.incident p
    → IsStorable (escalate now reason w).1.incident (record p { is_escalated = true })
unfolding escalate
escalate-IsStorable now reason w p h s =
    let (_, _, k, c) = escalate_keeps now reason w in
    record {
      numbered = ground (arith, s.numbered);
      located = (s.located.0, ground (arith, s.located.1));
      fits = rw (k, c) s.fits;
      policy = ground (arith, s.policy);
      same_priority = ground (arith, s.same_priority);
      window = s.window;
    }

module _ {S : Type 0} (table : IncidentTable S) (queries : IncidentQueries S)
    (publish : Event → World → S → World × S) (rows : S → String → Option Row)
    (users : S → Option String → Option AssigneeRow) (nobody : Staff) where
  abbrev pub repository : IncidentRepo S
  repository = record { queries = queries; find_by_id = find_by_id table nobody; save = save table }

  store_escalated-ok :
      (reason : Note) (w : World) (s t : S)
      → store_escalated repository publish reason w s ≡ (ok tt, t)
      → (key : String) × (u : S) × (save table w.incident s ≡ (ok key, u))
        × ((publish (incident_escalated reason) w u).1 ≡ t)
  unfolding store_escalated
  store_escalated-ok reason w s t h =
      let (key, u, saved, told) =
        >>=-eq-ok (save table w.incident)
          (λ (k : String) (u : S). (ok tt, (publish (incident_escalated reason) w u).1)) s h in
      (key, u, saved, cc)

  found_row :
      Answers table rows users
      → (id : String) (s : S) (r : Row) → rows s id ≡ some r
      → find_by_id table nobody id s ≡ (ok (some (to_entity nobody r)), s)
  unfolding find_by_id
  found_row a id s r h = rw (a.reads id s, h) refl

  -- An attempt at a job whose incident is shown with a policy and needs no escalation.
  nothing_left :
      Answers table rows users
      → (now level : ℕ) (id : String) (i : Incident) (p : SlaPolicy) (t : S)
      → Shows table rows users nobody t id (some i)
      → i.sla ≡ some p
      → is_pending i.state ≡ false
      → process repository publish now id level t ≡ (ok tt, t)
  nothing_left a now level id i p t (none, found, same) h q = cc
  nothing_left a now level id i p t (some l, found, same) h q =
      let shown : l.incident ≡ i = cc in
      let policy : l.incident.sla ≡ some p = rw shown h in
      let settled : is_pending l.incident.state ≡ false = rw shown q in
      (process_exact repository publish now level id l p t t found policy).0 ∙ rw settled refl

  told_keeps :
      Answers table rows users
      → ((e : Event) (w : World) (u : S) (k : String) → rows (publish e w u).1 k ≡ rows u k)
      → (e : Event) (w : World) (u t : S) → (publish e w u).1 ≡ t
      → (k : String) (o : Option Incident) → Shows table rows users nobody u k o
      → Shows table rows users nobody t k o
  told_keeps a quiet e w u t told k o before =
      let same : rows t k ≡ rows u k = ap (λ z. rows z k) (sym told) ∙ quiet e w u k in
      shown_of_rows table rows users nobody a t k (
        ap (seen table rows users nobody) same ∙ rows_of_shown table rows users nobody a u k before)

  -- What the first attempt left in the table, when the incident was open or in progress.
  first_attempt :
      Answers table rows users
      → (now level : ℕ) (id : String) (r : Row) (s t : S)
      → ((e : Event) (w : World) (u : S) (k : String) → rows (publish e w u).1 k ≡ rows u k)
      → str_eq id "" ≡ false
      → rows s id ≡ some r
      → is_truthy r.columns.incident_number ≡ true
      → is_pending (to_entity nobody r).incident.state ≡ true
      → process repository publish now id level s ≡ (ok tt, t)
      → (i : Incident) × Shows table rows users nobody t id (some i)
        × (i.state ≡ escalated_state)
        × (i.sla ≡ some (record (policy_of r) { is_escalated = true }))
        × ((k : String) (o : Option Incident)
            → str_eq k id ≡ false
            → Shows table rows users nobody s k o
            → Shows table rows users nobody t k o)
  unfolding to_entity policy_of
  first_attempt a now level id r s t quiet named found number pending ran =
      let l = to_entity nobody r in
      let p = policy_of r in
      let reason = reason_of level l.incident in
      let w = escalated now level l in
      let (run, facts) =
        process_exact repository publish now level id l p s s (found_row a id s r found) refl in
      let (state, policy) = facts pending in
      let stored : store_escalated repository publish reason w s ≡ (ok tt, t) =
        store_escalated_lem repository publish reason w s ∙ sym (rw pending at run) ∙ ran in
      let (key, u, saved, told) = store_escalated-ok reason w s t stored in
      let (same_id, same_creator, _, _) = escalate_keeps now reason (loaded_world l []) in
      let storable =
        escalate-IsStorable now reason (loaded_world l []) p pending
          (to_entity-IsStorable nobody r number) in
      let (_, shown, others) =
        find_by_id-save table rows users nobody a w.incident (record p { is_escalated = true }) id
          key s u r named (same_id ∙ ap some (a.keyed id s r found)) storable found
          (sym same_creator) saved in
      let left = reloaded id (users u w.incident.assigned_to_id) w.incident in
      let kept = told_keeps a quiet (incident_escalated reason) w u t told in
      (
        left,
        kept id (some left) shown,
        state,
        policy,
        λ k o other was. kept k o (others k o other was),
      )

  unmoved :
      Answers table rows users
      → (now level : ℕ) (id : String) (r : Row) (s : S)
      → is_pending (to_entity nobody r).incident.state ≡ false
      → rows s id ≡ some r
      → process repository publish now id level s ≡ (ok tt, s)
  unfolding to_entity policy_of
  unmoved a now level id r s settled found =
      (process_exact repository publish now level id (to_entity nobody r) (policy_of r) s s
        (found_row a id s r found) refl).0
      ∙ rw settled refl

  -- When an attempt at a job returns, for an incident that the table has under an id and a number,
  -- any later attempt at a job for that incident returns and writes nothing, whatever the state of the
  -- incident was, provided that publishing writes no incident.
  pub process_twice :
      Answers table rows users
      → (now level later other_level : ℕ) (id : String) (r : Row) (s t : S)
      → ((e : Event) (w : World) (u : S) (k : String) → rows (publish e w u).1 k ≡ rows u k)
      → str_eq id "" ≡ false
      → rows s id ≡ some r
      → is_truthy r.columns.incident_number ≡ true
      → process repository publish now id level s ≡ (ok tt, t)
      → process repository publish later id other_level t ≡ (ok tt, t)
  process_twice a now level later other_level id r s t quiet named found number ran =
      elim (Bool-cases (is_pending (to_entity nobody r).incident.state)) [
        | inl pending ↦
            let (i, shown, state, policy, _) =
              first_attempt a now level id r s t quiet named found number pending ran in
            nothing_left a later other_level id i (record (policy_of r) { is_escalated = true }) t
              shown policy (ap is_pending state)
        | inr settled ↦
            let same = unmoved a now level id r s settled found in
            let here : s ≡ t = ap (λ (x : Result Thrown (Unit {0}) × S). x.1) (sym same ∙ ran) in
            subst (λ z. process repository publish later id other_level z ≡ (ok tt, z)) here
              (unmoved a later other_level id r s settled found)
      ]
