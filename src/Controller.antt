-- ===== src/Controller.antt =====
-- api/controllers/incidentController.js: the handlers of the routes on incidents, with the error
-- handler that `next(err)` leads to. `aiClassify` is left out.
pub mod Listing
pub mod Resolution
mod Examples
use campusops.Common.{ℕ, String, Option, none, some}
use campusops.Common.Exec.{Exec, Result, ok, err}
use campusops.Common.Text.{Text}
use campusops.Errors.{Thrown}
use campusops.User.{Staff}
use campusops.Incident.{World, Event, Rating}
use campusops.Validation.{Dto}
use campusops.Middleware.Errors.{error_handler, error_value}
use campusops.Service.{
  IncidentRepo, DepartmentRepo, create_incident, assign_incident, resolve_incident, submit_feedback,
}

-- `res.status(…).json(…)`: the incident as `data`, or the code of the error.
pub record HttpResponse : Type 0 where
  pub status : ℕ
  pub code : Option String
  pub incident : Option World

abbrev pub failed : Thrown → HttpResponse
failed e = record {
  status = (error_handler (error_value e)).status;
  code = some (error_handler (error_value e)).code;
  incident = none;
}

-- The handlers that answer whatever the service returns.
unfoldable pub answer : ℕ → Result Thrown (Option World) → HttpResponse
answer status (ok v) = record { status = status; code = none; incident = v }
answer status (err e) = failed e

-- The handlers that answer null with 404.
unfoldable pub answer_found : Result Thrown (Option World) → HttpResponse
answer_found (ok (some v)) = record { status = 200; code = none; incident = some v }
answer_found (ok none) = record { status = 404; code = some "NOT_FOUND"; incident = none }
answer_found (err e) = failed e

module _ {S : Type 0} where
  -- A handler: the response to a request, and the database after it.
  abbrev pub respond :
      (Result Thrown (Option World) → HttpResponse)
      → Exec S Thrown (Option World)
      → S
      → HttpResponse × S
  respond f m s = let (r, t) = m s in (f r, t)

module _ {S : Type 0} (repo : IncidentRepo S) (departments : DepartmentRepo S)
    (publish : Event → World → S → World × S) (zone : ℕ → ℕ) (now : ℕ) where
  -- `createIncident`; `reporter` is the id of `req.user`.
  unfoldable pub post_incident : Staff → (number reporter : String) → Dto → S → HttpResponse × S
  unfolding answer
  post_incident nobody number reporter dto =
      respond (answer 201)
        (create_incident repo departments publish zone now nobody number reporter dto)

  -- `assignIncident`
  unfoldable pub post_assign : String → S → HttpResponse × S
  unfolding answer
  post_assign id = respond (answer 200) (assign_incident repo departments publish zone now id)

  -- `resolveIncident`
  unfoldable pub post_resolve : String → Option Text → Option String → S → HttpResponse × S
  unfolding answer_found
  post_resolve id text photo =
      respond answer_found (resolve_incident repo departments publish zone now id text photo)

  -- `submitFeedback`
  unfoldable pub post_feedback : String → Rating → S → HttpResponse × S
  unfolding answer_found
  post_feedback id rating =
      respond answer_found (submit_feedback repo departments publish zone now id rating)
