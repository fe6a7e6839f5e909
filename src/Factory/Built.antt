-- ===== src/Factory/Built.antt =====
-- What the factory builds from a body that the validators let through.
use campusops.Common.{
  ℕ, ◌+◌, ◌*◌, ◌≡◌, refl, inl, inr, String, true, false, Option, none, some, str_eq, or_default,
  if◌then◌else◌, any, [], ap, Bool-cases, ◌∙◌,
}
use campusops.Common.Exec.{ok}
use campusops.Sla.{critical, high, medium, low, SlaPolicy, hour_ms, window_of, attach_to, new_sla}
use campusops.Sla
use campusops.Incident.{
  Category, maintenance_category, security_category, infrastructure_category, emergency_category,
  IncidentClass, Incident, open_state, maintenance_incident, security_incident,
  infrastructure_incident, emergency_incident, general_incident,
}
use campusops.Incident.Invariant.{IsSound}
use campusops.Validation.{Dto, valid_priorities, valid_categories}
use campusops.Factory.{create, class_of, with_sla, with_class, new_incident, category_class_map}

-- The category that is stored for a reported one.
abbrev pub stored_category : String → Option Category
stored_category name =
    if str_eq name "MAINTENANCE"
    then some maintenance_category
    else if str_eq name "SECURITY"
    then some security_category
    else if str_eq name "INFRASTRUCTURE"
    then some infrastructure_category
    else if str_eq name "EMERGENCY"
    then some emergency_category
    else if str_eq name "CLEANLINESS"
    then some maintenance_category
    else none

-- An incident that nothing has happened to yet: sound, open, not assigned, without an escalation
-- job, and with the deadline of its priority attached.
pub record IsFresh (i : Incident) (created_at : ℕ) : Type 0 where
  pub sound : IsSound i
  pub is_open : i.state ≡ open_state
  pub unassigned : i.assigned_to_id ≡ none
  pub no_job : i.sla_job_id ≡ none
  pub deadline :
      (p : SlaPolicy) × (i.sla ≡ some p)
      × (p.window_hours ≡ window_of i.priority)
      × (p.deadline_at ≡ some (created_at + window_of i.priority * hour_ms))

abbrev Windowed : ℕ → SlaPolicy → Type 0
Windowed t p =
    (p.window_hours ≡ window_of p.priority)
    × (p.deadline_at ≡ some (t + window_of p.priority * hour_ms))

known_class :
    (name : String) (hours : Option ℕ)
    → any (str_eq name) valid_categories ≡ true
    → (c : IncidentClass) × (category_class_map name hours ≡ some (c, stored_category name))
unfolding category_class_map
known_class name hours h = elim (Bool-cases (str_eq name "MAINTENANCE")) [
  | inl a ↦ (maintenance_incident hours, rw a refl)
  | inr a ↦ elim (Bool-cases (str_eq name "SECURITY")) [
    | inl b ↦ (security_incident none false, rw (a, b) refl)
    | inr b ↦ elim (Bool-cases (str_eq name "INFRASTRUCTURE")) [
      | inl c ↦ (infrastructure_incident false none, rw (a, b, c) refl)
      | inr c ↦ elim (Bool-cases (str_eq name "EMERGENCY")) [
        | inl d ↦ (emergency_incident none [], rw (a, b, c, d) refl)
        | inr d ↦ elim (Bool-cases (str_eq name "CLEANLINESS")) [
          | inl e ↦ (maintenance_incident hours, rw (a, b, c, d, e) refl)
          | inr e ↦ elim (Bool-cases (str_eq name "OTHER")) [
            | inl f ↦ (general_incident, rw (a, b, c, d, e, f) refl)
            | inr f ↦ cc (rw (a, b, c, d, e, f) at h)
          ]
        ]
      ]
    ]
  ]
]

known_priority :
    (name : String) (t : ℕ)
    → any (str_eq name) valid_priorities ≡ true
    → (p : SlaPolicy) × (Sla.create name (some t) ≡ ok p) × Windowed t p
unfolding Sla.create
known_priority name t h = elim (Bool-cases (str_eq name "CRITICAL")) [
  | inl a ↦ (attach_to (new_sla critical none false none) t, rw a refl, (refl, refl))
  | inr a ↦ elim (Bool-cases (str_eq name "HIGH")) [
    | inl b ↦ (attach_to (new_sla high none false none) t, rw (a, b) refl, (refl, refl))
    | inr b ↦ elim (Bool-cases (str_eq name "MEDIUM")) [
      | inl c ↦ (attach_to (new_sla medium none false none) t, rw (a, b, c) refl, (refl, refl))
      | inr c ↦ elim (Bool-cases (str_eq name "LOW")) [
        | inl d ↦ (attach_to (new_sla low none false none) t, rw (a, b, c, d) refl, (refl, refl))
        | inr d ↦ cc (rw (a, b, c, d) at h)
      ]
    ]
  ]
]

built_of_parts :
    (number : String) (dto : Dto) (creator_id name : String) (t : ℕ) (c : IncidentClass)
    (p : SlaPolicy)
    → Windowed t p
    → (i : Incident) × (with_sla number dto creator_id (c, stored_category name) (ok p) ≡ ok i)
      × IsFresh i t
      × (i.category ≡ stored_category name)
unfolding with_sla new_incident
built_of_parts number dto creator_id name t c p (w, d) = (
  _,
  refl,
  record {
    sound = record { log_agrees = refl; fields = tt };
    is_open = refl;
    unassigned = refl;
    no_job = refl;
    deadline = (p, refl, w, d);
  },
  refl,
)

-- A body with a known priority and a known category always becomes an incident: sound, open,
-- unassigned, due when the window of its priority has passed since its creation, and of the
-- reported category, except that CLEANLINESS is stored as MAINTENANCE and OTHER as none.
pub create_built :
    (number : String) (dto : Dto) (creator_id category priority : String) (created_at : ℕ)
    → dto.category ≡ some category
    → dto.priority ≡ some priority
    → any (str_eq category) valid_categories ≡ true
    → any (str_eq priority) valid_priorities ≡ true
    → (i : Incident) × (create number dto creator_id created_at ≡ ok i)
      × IsFresh i created_at
      × (i.category ≡ stored_category category)
unfolding create class_of with_class
create_built number dto creator_id category priority created_at ec ep hc hp =
    let (c, known) = known_class category dto.estimated_duration_hours hc in
    let (p, made, windowed) = known_priority priority created_at hp in
    let (i, e, fresh, stored) =
      built_of_parts number dto creator_id category created_at c p windowed in
    let class_found : class_of dto.category dto.estimated_duration_hours
        ≡ some (c, stored_category category) =
      rw ec known in
    let sla_made : Sla.create (or_default dto.priority "undefined") (some created_at) ≡ ok p =
      rw ep made in
    (
      i,
      ap (with_class number dto creator_id created_at) class_found
          ∙ ap (with_sla number dto creator_id (c, stored_category category)) sla_made
          ∙ e,
      fresh,
      stored,
    )
