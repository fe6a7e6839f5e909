-- ===== src/Repository/Reload.antt =====
-- What an incident is after it was saved and loaded again.
use campusops.Common.{
  ℕ, ◌≡◌, refl, sym, ap, ◌∙◌, ◌⊎◌, inl, inr, String, true, false, Option, none, some, [], arith,
  is_some,
}
use campusops.User.{Staff, is_truthy}
use campusops.Sla.{Priority, SlaPolicy, window_of, from_row}
use campusops.Incident.{
  Category, maintenance_category, security_category, infrastructure_category, emergency_category,
  other_category, IncidentClass, maintenance_incident, security_incident, infrastructure_incident,
  emergency_incident, general_incident, Incident, World,
}
use campusops.Incident.Names.{state_map, state_map-get_name}
use campusops.Incident.Calls.{
  Call, assign_call, start_call, resolve_call, escalate_call, reopen_call, feedback_call, succeeds,
  outcome, after,
}
use campusops.Incident.Lifecycle.{perform_exact, accepts}
use campusops.Repository.{
  AssigneeRow, Columns, Row, to_columns, to_entity, incident_map, broadcasted_at, reference,
}

-- The category that goes with the class.
abbrev pub Fits : IncidentClass → Option Category → Type 0
Fits (maintenance_incident h) c = c ≡ some maintenance_category
Fits (security_incident n b) c = c ≡ some security_category
Fits (infrastructure_incident a e) c = c ≡ some infrastructure_category
Fits (emergency_incident t ids) c = c ≡ some emergency_category
Fits general_incident c = (c ≡ none) ⊎ (c ≡ some other_category)

-- The fields of a class that have a column; the others come back as their defaults.
abbrev pub stored_class : IncidentClass → IncidentClass
stored_class (maintenance_incident h) = maintenance_incident none
stored_class (security_incident n b) = security_incident none false
stored_class (infrastructure_incident a e) = infrastructure_incident false none
stored_class (emergency_incident t ids) = emergency_incident t []
stored_class general_incident = general_incident

-- An incident as the factory and the repository make them: it has a number, a block and the policy of
-- its priority.
pub record IsStorable (i : Incident) (p : SlaPolicy) : Type 0 where
  pub numbered : is_truthy i.incident_number ≡ true
  pub located : (b : String) × (i.location.block ≡ some b)
  pub fits : Fits i.class i.category
  pub policy : i.sla ≡ some p
  pub same_priority : p.priority ≡ i.priority
  pub window : p.window_hours ≡ window_of p.priority

incident_map_lem :
    (k : IncidentClass) (c : Option Category)
    → Fits k c
    → incident_map c (broadcasted_at k) ≡ (stored_class k, c)
unfolding incident_map
incident_map_lem (maintenance_incident h) c f = rw f
incident_map_lem (security_incident n b) c f = rw f
incident_map_lem (infrastructure_incident a e) c f = rw f
incident_map_lem (emergency_incident t ids) c f = rw f
incident_map_lem general_incident c (inl f) = rw f
incident_map_lem general_incident c (inr f) = rw f

from_row_same :
    (p : SlaPolicy) (q : Priority)
    → p.priority ≡ q
    → p.window_hours ≡ window_of p.priority
    → from_row q p.deadline_at (some p.is_escalated) p.escalated_at ≡ p
unfolding from_row
from_row_same p q h w = ground arith

abbrev pub row_of : String → Option AssigneeRow → Incident → Row
row_of id joined i = record {
  id = id;
  creator_id = i.creator_id;
  columns = to_columns i;
  assigned_to = joined;
}

-- What is left of an incident that is loaded again.
abbrev pub reloaded : String → Option AssigneeRow → Incident → Incident
reloaded id joined i = record i {
  id = some id;
  class = stored_class i.class;
  assigned_to = reference joined;
  feedback = none;
  status_log_entries = [];
  published_events = [];
  publisher = false;
}

-- An incident with a number, a block, the policy of its priority and the category of its class comes
-- back from the columns that it was written to as it was, except for its feedback, its log, its
-- events and its publisher, the fields of its class that have no column, and the assignee, which is
-- the row's.
pub to_entity-to_columns :
    (nobody : Staff) (i : Incident) (p : SlaPolicy) (id : String) (joined : Option AssigneeRow)
    → IsStorable i p
    → (to_entity nobody (row_of id joined i)).incident ≡ reloaded id joined i
unfolding to_entity to_columns
to_entity-to_columns nobody i p id joined s = ground (
  arith,
  state_map-get_name i.state,
  incident_map_lem i.class i.category s.fits,
  from_row_same p i.priority s.same_priority s.window,
)

accepts-same :
    (c : Call) (v w : World)
    → v.incident.state ≡ w.incident.state
    → is_some v.incident.sla ≡ is_some w.incident.sla
    → ((r : ℕ) → (v.staff r).staff_state ≡ (w.staff r).staff_state)
    → accepts c v ≡ accepts c w
accepts-same (assign_call now r) v w st sl hs = rw (st, hs r)
accepts-same start_call v w st sl hs = refl
accepts-same (resolve_call now n p) v w st sl hs = rw st
accepts-same (escalate_call now reason) v w st sl hs = rw (st, sl)
accepts-same (reopen_call reason) v w st sl hs = refl
accepts-same (feedback_call now rating) v w st sl hs = rw st

-- Whatever the row's id and creator are, the columns bring back the state and that there is a policy.
row_keeps :
    (nobody : Staff) (i : Incident) (p : SlaPolicy) (row : Row)
    → IsStorable i p
    → row.columns ≡ to_columns i
    → ((to_entity nobody row).incident.state ≡ i.state)
      × (is_some (to_entity nobody row).incident.sla ≡ is_some i.sla)
unfolding to_entity to_columns
row_keeps nobody i p row s wrote = (
  ap (λ (c : Columns). state_map c.status) wrote ∙ state_map-get_name i.state,
  rw (s.policy) refl,
)

-- An incident that is read from a row to whose columns it was written accepts exactly the calls that the one in memory
-- accepts, and each accepted call leads both to the same state, whichever staff objects they refer to
-- as long as each reference shows the same staff state.
pub reload_same_calls :
    (nobody : Staff) (c : Call) (i : Incident) (p : SlaPolicy) (row : Row) (v w : World)
    → IsStorable i p
    → w.incident ≡ i
    → row.columns ≡ to_columns i
    → v.incident ≡ (to_entity nobody row).incident
    → ((r : ℕ) → (v.staff r).staff_state ≡ (w.staff r).staff_state)
    → (succeeds (outcome c v) ≡ succeeds (outcome c w))
      × ((after c v).incident.state ≡ (after c w).incident.state)
reload_same_calls nobody c i p row v w s hw wrote read hs =
    let (state, policy) = row_keeps nobody i p row s wrote in
    let st : v.incident.state ≡ w.incident.state =
      ap (λ (x : Incident). x.state) read ∙ state ∙ ap (λ (x : Incident). x.state) (sym hw) in
    let sl : is_some v.incident.sla ≡ is_some w.incident.sla =
      ap (λ (x : Incident). is_some x.sla) read
      ∙ policy
      ∙ ap (λ (x : Incident). is_some x.sla) (sym hw) in
    let acc = accepts-same c v w st sl hs in
    let (done_v, to_v) = perform_exact c v in
    let (done_w, to_w) = perform_exact c w in
    (done_v ∙ acc ∙ sym done_w, to_v ∙ rw (acc, st) (sym to_w))
