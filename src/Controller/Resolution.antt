-- ===== src/Controller/Resolution.antt =====
-- What the route that resolves an incident answers.
use campusops.Common.{
  ℕ, ◌≡◌, refl, ap, ◌∙◌, arith, String, Bool, false, Option, none, some, [], if◌then◌else◌, is_some,
}
use campusops.Common.Exec.{Result, ok, err}
use campusops.Common.Text.{Text}
use campusops.Errors.{Thrown}
use campusops.Incident.{Incident, World, Event, incident_resolved}
use campusops.Incident.States.{resolve}
use campusops.Incident.Calls.{resolve_call, perform, succeeds}
use campusops.Incident.Lifecycle.{accepts, perform_exact}
use campusops.Middleware.Errors.{error_handler, error_value}
use campusops.Service.{
  IncidentRepo, DepartmentRepo, loaded_world, Loaded, if_found, resolve_found, resolve_incident,
}
use campusops.Service.Steps.{act_returned, act_threw, store_returned}
use campusops.Controller.{answer_found, respond, post_resolve}

resolve_error :
    (now : ℕ) (text : Option Text) (photo : Option String) (w : World) (e : Thrown)
    → (resolve now text photo w).0 ≡ err e
    → (error_handler (error_value e)).status ≡ 422
unfolding resolve error_handler error_value
resolve_error now text photo w e h = ground arith

-- Whether the incident that was looked up, if there is one, can be resolved so.
abbrev pub resolvable : ℕ → Option Text → Option String → Option Loaded → Bool
resolvable now text photo none = false
resolvable now text photo (some l) = accepts (resolve_call now text photo) (loaded_world l [])

abbrev pub status_by : Bool → ℕ
status_by accepted = if accepted then 200 else 422

module _ {S : Type 0} (repo : IncidentRepo S) (departments : DepartmentRepo S)
    (publish : Event → World → S → World × S) (zone : ℕ → ℕ) (now : ℕ) where
  -- What is answered once the incident was loaded, by what resolving it does.
  settled :
      (text : Option Text) (photo : Option String) (l : Loaded)
      (r : Result Thrown (Unit {0}) × World) (u : S)
      → ((i : Incident) (x : S) → (key : String) × (y : S) × (repo.save i x ≡ (ok key, y)))
      → resolve now text photo (loaded_world l []) ≡ r
      → let (h, t) =
          respond answer_found (resolve_found repo departments publish zone now text photo l) u in
        (h.status ≡ status_by (succeeds r.0)) × (succeeds r.0 ≡ false → t ≡ u)
  unfolding resolve_found answer_found
  settled text photo l (ok tt, w) u saves h =
      let (key, y, saved) = saves w.incident u in
      let acted = act_returned (resolve now text photo) (loaded_world l []) w u h in
      let stored =
        store_returned repo departments publish zone now incident_resolved w key u y saved in
      (rw (acted, stored) refl, λ no. cc)
  settled text photo l (err e, w) u saves h =
      let acted = act_threw (resolve now text photo) (loaded_world l []) w e u h in
      let refused =
        resolve_error now text photo (loaded_world l []) e
          (ap (λ (z : Result Thrown (Unit {0}) × World). z.0) h) in
      (rw acted refused, λ no. rw acted refl)

  -- A request to resolve an incident is answered with 404 when there is none, with 200 when it is in
  -- progress and comes with a photo and a note that is long enough, and with 422 in every other case;
  -- unless the answer is 200, the database is as the look-up left it. Saving is taken to succeed.
  pub post_resolve_lem :
      (id : String) (text : Option Text) (photo : Option String) (o : Option Loaded) (s u : S)
      → repo.find_by_id id s ≡ (ok o, u)
      → ((i : Incident) (x : S) → (key : String) × (y : S) × (repo.save i x ≡ (ok key, y)))
      → ((post_resolve repo departments publish zone now id text photo s).0.status
          ≡ (if is_some o then status_by (resolvable now text photo o) else 404))
        × (resolvable now text photo o ≡ false
            → (post_resolve repo departments publish zone now id text photo s).1 ≡ u)
  unfolding perform post_resolve resolve_incident if_found answer_found
  post_resolve_lem id text photo none s u found saves = (rw found refl, λ no. rw found refl)
  post_resolve_lem id text photo (some l) s u found saves =
      let (status, kept) =
        settled text photo l (resolve now text photo (loaded_world l [])) u saves refl in
      let exact = (perform_exact (resolve_call now text photo) (loaded_world l [])).0 in
      (rw found (status ∙ ap status_by exact), λ no. rw found (kept (exact ∙ no)))
