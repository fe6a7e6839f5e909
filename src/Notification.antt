-- ===== src/Notification.antt =====
-- domain/decorators: the channels that a notification takes.
-- The channels are a parameter. The texts of mails and messages are functions of the event and the
-- payload, which are passed on instead.
pub mod Delivery
mod Examples
use campusops.Common.{
  String, Bool, true, false, not, ◌&&◌, ◌||◌, Option, none, some, List, [], ◌∷◌, any, or_default,
  str_eq, if◌then◌else◌,
}
use campusops.Common.Exec.{Exec, pure, ◌>>◌}
use campusops.Errors.{Thrown}
use campusops.User.{Room, user_room}

-- The user's fields that the decorators read.
pub record Addressee : Type 0 where
  pub id : String
  pub email : Option String
  pub phone : Option String
  pub pref_realtime : Option Bool
  pub pref_email : Option Bool
  pub pref_sms : Option Bool

pub record Notice : Type 0 where
  pub priority : Option String
  pub incident_number : Option String
  pub reason : Option String
  pub message : Option String

-- One constructor for each class: the base, and what wraps another notifier.
pub data Notifier : Type 0 where
  base_notification : Notifier
  real_time_decorator email_decorator sms_decorator : Notifier → Notifier

-- `io.to(room).emit`, `mailer.sendMail` and `smsService.send`
pub record Channels (S : Type 0) : Type 0 where
  pub emit : Room → String → Notice → Exec S Thrown (Unit {0})
  pub send_mail : Option String → String → Notice → Exec S Thrown (Unit {0})
  pub send_sms : Option String → String → Notice → Exec S Thrown (Unit {0})

abbrev pub email_worthy_events : List String
email_worthy_events =
    "INCIDENT_ASSIGNED" ∷ "INCIDENT_RESOLVED" ∷ "INCIDENT_ESCALATED"
    ∷ "INCIDENT_REOPENED_BY_FEEDBACK" ∷ "STAFF_UNDER_REVIEW" ∷ []

-- `user.prefEmail !== false`
abbrev pub wants_email : Addressee → Bool
wants_email u = or_default u.pref_email true

-- A preference that is truthy.
abbrev pub is_on : Option Bool → Bool
is_on o = or_default o false

is_priority : Option String → String → Bool
is_priority none q = false
is_priority (some p) q = str_eq p q

-- `payload.priority === 'CRITICAL' || event === 'PANIC_ALERT'`
unfoldable pub is_critical : String → Notice → Bool
unfolding is_priority
is_critical event p = is_priority p.priority "CRITICAL" || str_eq event "PANIC_ALERT"

-- `buildNotifier(user, isCritical)`
unfoldable pub build_notifier : Addressee → Bool → Notifier
build_notifier u critical =
    let base = base_notification in
    let live = if is_on u.pref_realtime then real_time_decorator base else base in
    let mailed = if wants_email u then email_decorator live else live in
    if critical || is_on u.pref_sms then sms_decorator mailed else mailed

module _ {S : Type 0} (channels : Channels S) where
  -- `if (test) await m`
  abbrev pub run_if : Bool → Exec S Thrown (Unit {0}) → Exec S Thrown (Unit {0})
  run_if b m = if b then m else pure tt

  -- `send(user, event, payload)` of each class
  unfoldable pub send : Notifier → Addressee → String → Notice → Exec S Thrown (Unit {0})
  send base_notification u event p = pure tt
  send (real_time_decorator w) u event p =
      channels.emit (user_room u.id) event p >> send w u event p
  send (email_decorator w) u event p =
      run_if (wants_email u && any (str_eq event) email_worthy_events)
        (channels.send_mail u.email event p)
      >> send w u event p
  send (sms_decorator w) u event p =
      run_if (is_critical event p) (channels.send_sms u.phone event p) >> send w u event p

  -- `notify(user, event, payload)`
  unfoldable pub notify : Addressee → String → Notice → Exec S Thrown (Unit {0})
  unfolding build_notifier send
  notify u event p = send (build_notifier u (is_critical event p)) u event p
