-- ===== src/Service/Creation.antt =====
-- What a reported incident has been checked for, and what is saved and announced of it.
use campusops.Common.{
  ℕ, ◌≡◌, ◌<◌, refl, sym, ap, ◌∙◌, String, true, false, Option, none, some, [], List, any, str_eq,
}
use campusops.Common.Exec.{Result, ok, err, ◌>>=◌, >>=-eq-ok}
use campusops.Errors.{DomainError, Thrown}
use campusops.User.{Staff}
use campusops.Incident.{Incident, World, Event, incident_created}
use campusops.Validation.{
  Dto, validate, build_validation_chain, valid_priorities, valid_categories, is_listed,
  duplicate_window_hours, one_hour_ms, max_per_hour,
}
use campusops.Validation.Verdicts.{IsWellFormed, HasEvidence, validate_sound, context}
use campusops.Factory
use campusops.Factory.Built.{IsFresh, create_built}
use campusops.Service.{
  IncidentRepo, DepartmentRepo, announce, store_new, build, create_incident, thrown_by_factory,
}

listed_inv :
    (o : Option String) (names : List String)
    → is_listed o names ≡ true
    → (name : String) × (o ≡ some name) × (any (str_eq name) names ≡ true)
listed_inv none names h = cc
listed_inv (some name) names h = (name, refl, h)

factory_ok :
    (r : Result DomainError Incident) (i : Incident) → thrown_by_factory r ≡ ok i → r ≡ ok i
factory_ok (ok j) i h = cc
factory_ok (err e) i h = cc

module _ {S : Type 0} (repo : IncidentRepo S) (departments : DepartmentRepo S)
    (publish : Event → World → S → World × S) (zone : ℕ → ℕ) (now : ℕ) where
  -- The new incident `i` was saved from the database `s` and announced with the key that it got.
  pub record Created (nobody : Staff) (i : Incident) (s : S) (v : World) (t : S) : Type 0 where
    pub key : String
    pub stored : S
    pub saved : repo.save i s ≡ (ok key, stored)
    pub told :
        publish incident_created
          (record { incident = record i { id = some key }; staff = λ r. nobody; outbox = [] })
          stored
        ≡ (v, t)

  stored_new :
      (nobody : Staff) (i : Incident) (v : World) (s t : S)
      → store_new repo departments publish zone now nobody i s ≡ (ok (some v), t)
      → Created nobody i s v t
  unfolding store_new announce
  stored_new nobody i v s t h =
      let fresh : String → World =
        λ key. record { incident = record i { id = some key }; staff = λ r. nobody; outbox = [] } in
      let (key, u, saved, told) =
        >>=-eq-ok (repo.save i)
          (λ key. announce repo departments publish zone now incident_created (fresh key)) s h in
      record { key = key; stored = u; saved = saved; told = cc }

  factory_facts :
      (number reporter : String) (dto : Dto) (i : Incident)
      → IsWellFormed dto
      → Factory.create number dto reporter now ≡ ok i
      → IsFresh i now
  factory_facts number reporter dto i w h =
      let (priority, ep, hp) = listed_inv dto.priority valid_priorities w.priority_known in
      let (category, ec, hc) = listed_inv dto.category valid_categories w.category_known in
      let (j, made, fresh, _) =
        create_built number dto reporter category priority now ec ep hc hp in
      let same : j ≡ i = cc in rw same at fresh

  -- When `createIncident` returns, the body was well formed, with its photo if it is critical, there
  -- was no duplicate of it, and the reporter had reported fewer than five in the last hour; the
  -- incident that the factory makes of it, open, unassigned, due at its deadline, was saved and then
  -- announced under the key that it got.
  pub create_incident_sound :
      (nobody : Staff) (number reporter : String) (dto : Dto) (v : World) (s t : S)
      → str_eq reporter "" ≡ false
      → create_incident repo departments publish zone now nobody number reporter dto s
        ≡ (ok (some v), t)
      → IsWellFormed dto
        × HasEvidence dto
        × ((u x : S) × (repo.queries.find_duplicates dto.location dto.category
                duplicate_window_hours s
              ≡ (ok none, u))
            × ((n : ℕ) × (repo.queries.count_recent_by_user reporter one_hour_ms u ≡ (ok n, x))
                × (n < max_per_hour))
            × ((i : Incident) × (Factory.create number dto reporter now ≡ ok i)
                × IsFresh i now
                × Created nobody i x v t))
  unfolding create_incident build
  create_incident_sound nobody number reporter dto v s t given h =
      let ctx = context repo.queries reporter in
      let checked = validate build_validation_chain dto ctx in
      let (i, x, built, stored) =
        >>=-eq-ok (checked >>= build repo departments publish zone now number reporter)
          (store_new repo departments publish zone now nobody) s h in
      let (out, y, passed, made) =
        >>=-eq-ok checked (build repo departments publish zone now number reporter) s built in
      let (same, formed, evidence, (u, none_found, (n, counted, few))) =
        validate_sound repo.queries reporter dto out s y given passed in
      let lifted : ◌≡◌ {A = Result Thrown Incident × S}
          (thrown_by_factory (Factory.create number out reporter now), y) (ok i, x) =
        made in
      let drawn = factory_ok (Factory.create number out reporter now) i cc in
      let own : Factory.create number dto reporter now ≡ ok i =
        ap (λ d. Factory.create number d reporter now) (sym same) ∙ drawn in
      let here : y ≡ x = cc in
      (
        formed,
        evidence,
        (
          u,
          x,
          none_found,
          (n, counted ∙ ap (λ z. (ok n, z)) here, few),
          (
            i,
            own,
            factory_facts number reporter dto i formed own,
            stored_new nobody i v x t stored,
          ),
        ),
      )
