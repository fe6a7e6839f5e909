-- ===== src/Validation/Verdicts.antt =====
-- What the validation chain lets through, and what it does on the way.
use campusops.Common.{
  ℕ, ◌<◌, String, ◌≡◌, refl, ap, ◌∙◌, Bool, true, false, ◌&&◌, not, none, some, List, [], ◌∷◌,
  arith, leb, length, if◌then◌else◌, str_eq,
}
use campusops.Common.Exec.{Exec, Result, ok, err, throw_if, >>=-eq-ok, throw_if-eq-ok}
use campusops.Errors.{Thrown, domain, validation_error, duplicate_incident, spam_throttle}
use campusops.Validation.{
  Dto, Duplicate, IncidentQueries, Context, Handler, valid_priorities, valid_categories, is_listed,
  has_block, is_critical, duplicate_window_hours, one_hour_ms, max_per_hour, priority_validator,
  category_validator, location_validator, duplicate_detector, spam_throttle_validator,
  photo_requirement_check, check, validate, build_validation_chain,
}

-- The rules on the body alone.
pub record IsWellFormed (dto : Dto) : Type 0 where
  pub priority_known : is_listed dto.priority valid_priorities ≡ true
  pub category_known : is_listed dto.category valid_categories ≡ true
  pub block_given : has_block dto.location ≡ true

pub record HasEvidence (dto : Dto) : Type 0 where
  pub photo : is_critical dto.priority ≡ true → 0 < length dto.evidence_photos

abbrev after_spam : List Handler
after_spam = photo_requirement_check ∷ []

abbrev after_duplicate : List Handler
after_duplicate = spam_throttle_validator ∷ after_spam

abbrev after_location : List Handler
after_location = duplicate_detector ∷ after_duplicate

abbrev after_category : List Handler
after_category = location_validator ∷ after_location

abbrev after_priority : List Handler
after_priority = category_validator ∷ after_category

module _ {S : Type 0} where
  passed_test :
      (b : Bool) (f : String) (s t : S) {u : Unit {0}}
      → throw_if (not b) (domain (validation_error f)) s ≡ (ok u, t)
      → (s ≡ t) × (b ≡ true)
  passed_test true f s t h = (cc, refl)
  passed_test false f s t h = cc

  returned :
      (dto out : Dto) (s t : S)
      → ◌≡◌ {A = Result Thrown Dto × S} (ok dto, s) (ok out, t)
      → (out ≡ dto) × (s ≡ t)
  returned dto out s t h = (cc, cc)

module _ {S : Type 0} (repo : IncidentQueries S) (user : String) where
  abbrev pub context : Context S
  context = record { user_id = some user; incident_repo = some repo }

  abbrev pub run_chain : Dto → Exec S Thrown Dto
  run_chain dto = validate build_validation_chain dto context

  no_duplicate :
      (dto : Dto) (s t : S) {u : Unit {0}}
      → check duplicate_detector dto context s ≡ (ok u, t)
      → repo.find_duplicates dto.location dto.category duplicate_window_hours s ≡ (ok none, t)
  unfolding check
  no_duplicate dto s t h = ground arith

  below_limit :
      (dto : Dto) (s t : S) {u : Unit {0}}
      → str_eq user "" ≡ false
      → check spam_throttle_validator dto context s ≡ (ok u, t)
      → (n : ℕ) × (repo.count_recent_by_user user one_hour_ms s ≡ (ok n, t)) × (n < max_per_hour)
  unfolding check
  below_limit dto s t given h =
      let limit = λ (n : ℕ). throw_if {S = S} (leb max_per_hour n) (domain (spam_throttle n)) in
      let (n, u, counted, allowed) =
        >>=-eq-ok (repo.count_recent_by_user user one_hour_ms) limit s (rw given at h) in
      let (few, same) = throw_if-eq-ok (leb max_per_hour n) (domain (spam_throttle n)) u allowed in
      (n, rw same at counted, ground arith)

  -- An incident that passes is unchanged and well formed, has its photo if it is critical, was found
  -- to have no duplicate, and came from a user with fewer than five in the last hour.
  pub validate_sound :
      (dto out : Dto) (s t : S)
      → str_eq user "" ≡ false
      → run_chain dto s ≡ (ok out, t)
      → (out ≡ dto)
        × IsWellFormed dto
        × HasEvidence dto
        × ((u : S) × (repo.find_duplicates dto.location dto.category duplicate_window_hours s
              ≡ (ok none, u))
            × ((n : ℕ) × (repo.count_recent_by_user user one_hour_ms u ≡ (ok n, t))
                × (n < max_per_hour)))
  unfolding validate check build_validation_chain
  validate_sound dto out s t given h =
      let missing = is_critical dto.priority && leb (length dto.evidence_photos) 0 in
      let next = λ (hs : List Handler) (u : Unit {0}). validate hs dto context in
      let (_, s₁, p₁, r₁) =
        >>=-eq-ok (check priority_validator dto context) (next after_priority) s h in
      let (_, s₂, p₂, r₂) =
        >>=-eq-ok (check category_validator dto context) (next after_category) s₁ r₁ in
      let (_, s₃, p₃, r₃) =
        >>=-eq-ok (check location_validator dto context) (next after_location) s₂ r₂ in
      let (_, s₄, p₄, r₄) =
        >>=-eq-ok (check duplicate_detector dto context) (next after_duplicate) s₃ r₃ in
      let (_, s₅, p₅, r₅) =
        >>=-eq-ok (check spam_throttle_validator dto context) (next after_spam) s₄ r₄ in
      let (_, s₆, p₆, r₆) = >>=-eq-ok (check photo_requirement_check dto context) (next []) s₅ r₅ in
      let (e₁, a) = passed_test (is_listed dto.priority valid_priorities) "priority" s s₁ p₁ in
      let (e₂, b) = passed_test (is_listed dto.category valid_categories) "category" s₁ s₂ p₂ in
      let (e₃, c) = passed_test (has_block dto.location) "location.block" s₂ s₃ p₃ in
      let (d, e₆) = throw_if-eq-ok missing (domain (validation_error "evidencePhotos")) s₅ p₆ in
      let (n, counted, few) = below_limit dto s₄ s₅ given p₅ in
      let (same, end) = returned dto out s₆ t r₆ in
      (
        same,
        record { priority_known = a; category_known = b; block_given = c },
        record { photo = ground arith },
        (
          s₄,
          ap (repo.find_duplicates dto.location dto.category duplicate_window_hours) (e₁ ∙ e₂ ∙ e₃)
              ∙ no_duplicate dto s₃ s₄ p₄,
          (n, counted ∙ ap {B = Result Thrown ℕ × S} (λ x. (ok n, x)) (e₆ ∙ end), few),
        ),
      )

  abbrev pub first_fault : Dto → String
  first_fault dto =
      if not (is_listed dto.priority valid_priorities)
      then "priority"
      else if not (is_listed dto.category valid_categories)
      then "category"
      else "location.block"

  -- A body that is not well formed is refused with its first field at fault, and the repository is
  -- not asked anything.
  pub malformed_refused :
      (dto : Dto) (s : S)
      → (is_listed dto.priority valid_priorities
          && is_listed dto.category valid_categories
          && has_block dto.location)
        ≡ false
      → run_chain dto s ≡ (err (domain (validation_error (first_fault dto))), s)
  unfolding validate check build_validation_chain
  malformed_refused dto s h = ground arith

  -- A duplicate is counted on the incident that is there, once, and refused with its identity.
  pub duplicate_counted :
      (dto : Dto) (d : Duplicate) (s t u : S)
      → IsWellFormed dto
      → repo.find_duplicates dto.location dto.category duplicate_window_hours s ≡ (ok (some d), t)
      → repo.increment_duplicate_count d.id t ≡ (ok tt, u)
      → run_chain dto s ≡ (err (domain (duplicate_incident d.id d.incident_number d.status)), u)
  unfolding validate check build_validation_chain
  duplicate_counted dto d s t u w found counted = ground arith
