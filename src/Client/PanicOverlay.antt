-- ===== src/Client/PanicOverlay.antt =====
-- client/src/components/GlobalSocketListener.jsx: the panic alert that takes over the screen of the
-- staff, and the button by which a security officer acknowledges it.
use campusops.Common.{
  Bool, true, false, ◌&&◌, not, ◌≡◌, refl, arith, String, Option, none, some, List, [], ◌∷◌, any,
  str_eq, is_some, if◌then◌else◌, All,
}
use campusops.User.{UserRole, maintenance, security, admin}
use campusops.Incident.{is_role}

-- `panicAlert`, by its incident, and `ackLoading`; the component stays mounted.
pub record Overlay : Type 0 where
  pub panic_alert : Option String
  pub ack_loading : Bool

abbrev pub no_alert : Overlay
no_alert = record { panic_alert = none; ack_loading = false }

-- What the component reacts to: the two socket events, a click, and the answer to the request.
pub data OverlayEvent : Type 0 where
  panic_raised acknowledged_globally : (incident_id : String) → OverlayEvent
  clicked request_succeeded request_failed : OverlayEvent

abbrev pub sees_panics : UserRole → Bool
sees_panics role = any (is_role role) (admin ∷ maintenance ∷ security ∷ [])

dismissed : String → Option String → Option String
dismissed id none = none
dismissed id (some shown) = if str_eq shown id then none else some shown

-- The button is there for security officers, and enabled unless a request is under way.
unfoldable pub can_acknowledge : UserRole → Overlay → Bool
can_acknowledge role o = is_role role security && is_some o.panic_alert && not o.ack_loading

unfoldable pub react : UserRole → OverlayEvent → Overlay → Overlay
unfolding dismissed can_acknowledge
react role (panic_raised id) o = if sees_panics role then record o { panic_alert = some id } else o
react role (acknowledged_globally id) o = record o { panic_alert = dismissed id o.panic_alert }
react role clicked o = if can_acknowledge role o then record o { ack_loading = true } else o
react role request_succeeded o = o
react role request_failed o = record o { ack_loading = false }

unfoldable pub react_all : UserRole → List OverlayEvent → Overlay → Overlay
unfolding react
react_all role [] o = o
react_all role (e ∷ es) o = react_all role es (react role e o)

-- An event of anything but a request that failed.
abbrev pub IsNoFailure : OverlayEvent → Type 0
IsNoFailure request_failed = ⊥
IsNoFailure _ = Unit

stays_loading :
    (role : UserRole) (e : OverlayEvent) (o : Overlay)
    → IsNoFailure e
    → o.ack_loading ≡ true
    → (react role e o).ack_loading ≡ true
unfolding react
stays_loading role (panic_raised id) o ok h = ground arith
stays_loading role (acknowledged_globally id) o ok h = h
stays_loading role clicked o ok h = ground arith
stays_loading role request_succeeded o ok h = h
stays_loading role request_failed o ok h = absurd ok

all_loading :
    (role : UserRole) (es : List OverlayEvent) (o : Overlay)
    → All IsNoFailure es
    → o.ack_loading ≡ true
    → (react_all role es o).ack_loading ≡ true
unfolding react_all
all_loading role [] o ok h = h
all_loading role (e ∷ es) o (ok, oks) h =
    all_loading role es (react role e o) oks (stays_loading role e o ok h)

disabled : (role : UserRole) (o : Overlay) → o.ack_loading ≡ true → can_acknowledge role o ≡ false
unfolding can_acknowledge
disabled role o h = rw h (ground arith)

clicked_busy :
    (role : UserRole) (o : Overlay)
    → can_acknowledge role o ≡ true
    → (react role clicked o).ack_loading ≡ true
unfolding react
clicked_busy role o able = rw able refl

-- After an officer has clicked the button once, no later panic alert can be acknowledged, whatever
-- follows but a request that fails: the success of the request does not enable the button again.
pub acknowledge_once :
    (role : UserRole) (o : Overlay) (es : List OverlayEvent)
    → can_acknowledge role o ≡ true
    → All IsNoFailure es
    → can_acknowledge role (react_all role (clicked ∷ es) o) ≡ false
unfolding react_all
acknowledge_once role o es able ok =
    disabled role (react_all role es (react role clicked o))
      (all_loading role es (react role clicked o) ok (clicked_busy role o able))
