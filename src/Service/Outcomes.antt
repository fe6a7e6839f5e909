-- ===== src/Service/Outcomes.antt =====
-- What a use case that returns has found, checked, saved and announced.
use campusops.Common.{
  ℕ, ◌≡◌, refl, ap, ◌∙◌, sym, inl, inr, String, true, false, Option, none, some, [], arith,
  if◌then◌else◌, Bool-cases,
}
use mathlib.Core.Path.{subst}
use campusops.Common.Exec.{Exec, Result, ok, err, ◌>>=◌, >>=-eq-ok}
use campusops.Common.Text.{Text}
use campusops.Errors.{Thrown}
use campusops.Incident.{
  IncidentState, in_progress_state, resolved_state, reopened_state, World, StaffRef, Rating, Event,
  incident_resolved, incident_reopened_by_feedback, feedback_received, Action,
}
use campusops.Incident.States.{
  assign_staff, resolve, receive_feedback, no_photo, note_too_short, is_poor,
}
use campusops.Incident.Calls.{assign_call, resolve_call, feedback_call, Call, perform, succeeds}
use campusops.Incident.Lifecycle.{perform_exact, accepts, target}
use campusops.Service.{
  Loaded, IncidentRepo, DepartmentRepo, loaded_world, feedback_event, finish, act, announce, store,
  if_found, resolve_found, feedback_found, resolve_incident, submit_feedback,
}

module _ {S : Type 0} where
  finish-ok :
      (r : Result Thrown (Unit {0}) × World) {w : World} (s t : S)
      → finish r s ≡ (ok w, t)
      → (r ≡ (ok tt, w)) × (s ≡ t)
  unfolding finish
  finish-ok (ok u, w) s t h = (cc, cc)
  finish-ok (err e, w) s t h = cc

  if_found-ok :
      (f : Loaded → Exec S Thrown (Option World)) (o : Option Loaded) (v : World) (s t : S)
      → if_found f o s ≡ (ok (some v), t)
      → (l : Loaded) × (o ≡ some l) × (f l s ≡ (ok (some v), t))
  unfolding if_found
  if_found-ok f none v s t h = cc
  if_found-ok f (some l) v s t h = (l, refl, h)

  act-ok :
      (a : Action) (v : World) {w : World} (s t : S)
      → act a v s ≡ (ok w, t)
      → (a v ≡ (ok tt, w)) × (s ≡ t)
  unfolding act
  act-ok a v s t h = finish-ok (a v) s t h

-- An accepted call met its condition and led to its target.
performed :
    (c : Call) (v w : World)
    → perform c v ≡ (ok tt, w)
    → (accepts c v ≡ true) × (w.incident.state ≡ target c v.incident.state)
performed c v w h =
    let (s, t) = perform_exact c v in
    let ok_of = ap (λ (r : Result Thrown (Unit {0}) × World). succeeds r.0) h in
    let state_of = ap (λ (r : Result Thrown (Unit {0}) × World). r.1.incident.state) h in
    let accepted : accepts c v ≡ true = sym s ∙ ok_of in (accepted, sym state_of ∙ rw accepted at t)

resolve_facts :
    (now : ℕ) (text : Option Text) (photo : Option String) (v w : World)
    → resolve now text photo v ≡ (ok tt, w)
    → (v.incident.state ≡ in_progress_state)
      × (no_photo photo ≡ false)
      × (note_too_short text ≡ false)
      × (w.incident.state ≡ resolved_state)
unfolding perform
resolve_facts now text photo v w h =
    let (a, t) = performed (resolve_call now text photo) v w h in
    (ground arith, ground arith, ground arith, t)

feedback_facts :
    (now : ℕ) (rating : Rating) (v w : World)
    → receive_feedback now rating v ≡ (ok tt, w)
    → (v.incident.state ≡ resolved_state)
      × (w.incident.state ≡ (if is_poor rating.score then reopened_state else resolved_state))
unfolding perform
feedback_facts now rating v w h =
    let (a, t) = performed (feedback_call now rating) v w h in
    let was : v.incident.state ≡ resolved_state = ground arith in (was, ground arith)

pub assign_facts :
    (now : ℕ) (r : StaffRef) (v w : World)
    → assign_staff now r v ≡ (ok tt, w)
    → (w.incident.state ≡ in_progress_state) × (w.incident.assigned_to ≡ some r)
unfolding perform assign_staff
assign_facts now r v w h = let (a, t) = performed (assign_call now r) v w h in (t, ground arith)

event_named :
    (rating : Rating) (s : IncidentState)
    → s ≡ (if is_poor rating.score then reopened_state else resolved_state)
    → feedback_event rating s ≡ (
        if is_poor rating.score
        then incident_reopened_by_feedback rating
        else feedback_received rating)
unfolding feedback_event
event_named rating s h = elim (Bool-cases (is_poor rating.score)) [
  | inl poor ↦ rw (h, poor) refl
  | inr good ↦ rw (h, good) refl
]

module _ {S : Type 0} (repo : IncidentRepo S) (departments : DepartmentRepo S)
    (publish : Event → World → S → World × S) (zone : ℕ → ℕ) (now : ℕ) where
  -- The incident of `w` was saved from the database `s`, and the event was announced after that,
  -- which left the objects `v` and the database `t`.
  abbrev pub Stored : Event → World → S → World → S → Type 0
  Stored e w s v t =
      (key : String) × (u : S) × (repo.save w.incident s ≡ (ok key, u)) × (publish e w u ≡ (v, t))

  announced :
      (e : Event) (w v : World) (u t : S)
      → announce repo departments publish zone now e w u ≡ (ok (some v), t)
      → publish e w u ≡ (v, t)
  unfolding announce
  announced e w v u t h = cc

  store-Stored :
      (e : Event) (w v : World) (s t : S)
      → store repo departments publish zone now e w s ≡ (ok (some v), t)
      → Stored e w s v t
  unfolding store
  store-Stored e w v s t h =
      let (key, u, saved, told) =
        >>=-eq-ok (repo.save w.incident) (λ k. announce repo departments publish zone now e w) s
          h in
      (key, u, saved, announced e w v u t told)

  -- An action whose outcome is then stored under the event `e`.
  pub act-store-ok :
      (a : Action) (e : World → Event) (before v : World) (u t : S)
      → (act a before >>= λ w. store repo departments publish zone now (e w) w) u ≡ (ok (some v), t)
      → (w : World) × (a before ≡ (ok tt, w)) × Stored (e w) w u v t
  act-store-ok a e before v u t h =
      let (w, x, acted, stored) =
        >>=-eq-ok (act a before) (λ w. store repo departments publish zone now (e w) w) u h in
      let (done, same) = act-ok a before u x acted in
      (w, done, subst (λ z. Stored (e w) w z v t) (sym same) (store-Stored (e w) w v x t stored))

  resolved :
      (text : Option Text) (photo : Option String) (l : Loaded) (v : World) (u t : S)
      → resolve_found repo departments publish zone now text photo l u ≡ (ok (some v), t)
      → (w : World) × (resolve now text photo (loaded_world l []) ≡ (ok tt, w))
        × Stored incident_resolved w u v t
  unfolding resolve_found
  resolved text photo l v u t h =
      act-store-ok (resolve now text photo) (λ w. incident_resolved) (loaded_world l []) v u t h

  fed_back :
      (rating : Rating) (l : Loaded) (v : World) (u t : S)
      → feedback_found repo departments publish zone now rating l u ≡ (ok (some v), t)
      → (w : World) × (receive_feedback now rating (loaded_world l []) ≡ (ok tt, w))
        × Stored (feedback_event rating w.incident.state) w u v t
  unfolding feedback_found
  fed_back rating l v u t h =
      act-store-ok (receive_feedback now rating) (λ w. feedback_event rating w.incident.state)
        (loaded_world l []) v u t h

  -- When `resolveIncident` returns an incident, it was loaded in progress, the photo and a note of
  -- ten units or more were given, and what was saved and then announced is that incident resolved.
  pub resolve_incident_sound :
      (id : String) (text : Option Text) (photo : Option String) (v : World) (s t : S)
      → resolve_incident repo departments publish zone now id text photo s ≡ (ok (some v), t)
      → (l : Loaded) × (u : S) × (w : World) × (repo.find_by_id id s ≡ (ok (some l), u))
        × (resolve now text photo (loaded_world l []) ≡ (ok tt, w))
        × (l.incident.state ≡ in_progress_state)
        × (no_photo photo ≡ false)
        × (note_too_short text ≡ false)
        × (w.incident.state ≡ resolved_state)
        × Stored incident_resolved w u v t
  unfolding resolve_incident
  resolve_incident_sound id text photo v s t h =
      let (o, u, found, rest) =
        >>=-eq-ok (repo.find_by_id id)
          (if_found (resolve_found repo departments publish zone now text photo)) s h in
      let (l, same, went) =
        if_found-ok (resolve_found repo departments publish zone now text photo) o v u t rest in
      let (w, done, stored) = resolved text photo l v u t went in
      let (a, b, c, d) = resolve_facts now text photo (loaded_world l []) w done in
      (l, u, w, rw same at found, done, a, b, c, d, stored)

  -- When `submitFeedback` returns an incident, it was loaded resolved, and what was saved is that
  -- incident, reopened if the rating was poor and resolved otherwise, announced under the event that
  -- goes with it.
  pub submit_feedback_sound :
      (id : String) (rating : Rating) (v : World) (s t : S)
      → submit_feedback repo departments publish zone now id rating s ≡ (ok (some v), t)
      → (l : Loaded) × (u : S) × (w : World) × (repo.find_by_id id s ≡ (ok (some l), u))
        × (receive_feedback now rating (loaded_world l []) ≡ (ok tt, w))
        × (l.incident.state ≡ resolved_state)
        × (w.incident.state ≡ (if is_poor rating.score then reopened_state else resolved_state))
        × Stored
            (if is_poor rating.score
              then incident_reopened_by_feedback rating
              else feedback_received rating)
            w
            u
            v
            t
  unfolding submit_feedback
  submit_feedback_sound id rating v s t h =
      let (o, u, found, rest) =
        >>=-eq-ok (repo.find_by_id id)
          (if_found (feedback_found repo departments publish zone now rating)) s h in
      let (l, same, went) =
        if_found-ok (feedback_found repo departments publish zone now rating) o v u t rest in
      let (w, done, stored) = fed_back rating l v u t went in
      let (a, b) = feedback_facts now rating (loaded_world l []) w done in
      (
        l,
        u,
        w,
        rw same at found,
        done,
        a,
        b,
        subst (λ e. Stored e w u v t) (event_named rating w.incident.state b) stored,
      )
