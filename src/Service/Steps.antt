-- ===== src/Service/Steps.antt =====
-- The steps of a use case, run forwards.
use campusops.Common.{ℕ, ◌≡◌, refl, String, some}
use campusops.Common.Exec.{ok, err}
use campusops.Errors.{Thrown}
use campusops.Incident.{World, Event, Action}
use campusops.Service.{IncidentRepo, DepartmentRepo, finish, act, announce, store}

module _ {S : Type 0} where
  pub act_returned :
      (a : Action) (v w : World) (s : S) → a v ≡ (ok tt, w) → act {S = S} a v s ≡ (ok w, s)
  unfolding act finish
  act_returned a v w s h = rw h refl

  pub act_threw :
      (a : Action) (v w : World) (e : Thrown) (s : S)
      → a v ≡ (err e, w)
      → act {S = S} a v s ≡ (err e, s)
  unfolding act finish
  act_threw a v w e s h = rw h refl

module _ {S : Type 0} (repo : IncidentRepo S) (departments : DepartmentRepo S)
    (publish : Event → World → S → World × S) (zone : ℕ → ℕ) (now : ℕ) where
  pub store_returned :
      (e : Event) (w : World) (key : String) (s u : S)
      → repo.save w.incident s ≡ (ok key, u)
      → store repo departments publish zone now e w s
        ≡ (ok (some (publish e w u).0), (publish e w u).1)
  unfolding store announce
  store_returned e w key s u h = rw h refl
