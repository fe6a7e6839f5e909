-- ===== src/Notification/Delivery.antt =====
-- Which channels a notification takes, in which order.
use campusops.Common.{
  ◌≡◌, refl, sym, ◌∙◌, String, Bool, true, false, ◌&&◌, ◌||◌, Option, any, str_eq, if◌then◌else◌,
}
use campusops.Common.Exec.{Exec, Result, ok, err, pure, ◌>>◌}
use campusops.Errors.{Thrown}
use campusops.User.{user_room}
use campusops.Notification.{
  Addressee, Notice, Notifier, base_notification, real_time_decorator, email_decorator,
  sms_decorator, Channels, email_worthy_events, wants_email, is_on, is_critical, build_notifier,
  run_if, send, notify,
}

module _ {S : Type 0} (channels : Channels S) where
  -- The three channels, each under its own condition.
  abbrev pub by_sms : Addressee → String → Notice → Exec S Thrown (Unit {0})
  by_sms u event p = run_if channels (is_critical event p) (channels.send_sms u.phone event p)

  abbrev pub by_mail : Addressee → String → Notice → Exec S Thrown (Unit {0})
  by_mail u event p =
      run_if channels (wants_email u && any (str_eq event) email_worthy_events)
        (channels.send_mail u.email event p)

  abbrev pub by_socket : Addressee → String → Notice → Exec S Thrown (Unit {0})
  by_socket u event p =
      run_if channels (is_on u.pref_realtime) (channels.emit (user_room u.id) event p)

  kept_result : (r : Result Thrown (Unit {0}) × S) → ((λ (s : S). r) >> pure tt) r.1 ≡ r
  kept_result (ok u, t) = refl
  kept_result (err e, t) = refl

  socket_layer :
      (b : Bool) (u : Addressee) (event : String) (p : Notice) (s : S)
      → send channels
          (if b then real_time_decorator base_notification else base_notification)
          u
          event
          p
          s
        ≡ run_if channels b (channels.emit (user_room u.id) event p) s
  unfolding send
  socket_layer true u event p s = kept_result (channels.emit (user_room u.id) event p s)
  socket_layer false u event p s = refl

  mail_layer :
      (b : Bool) (w : Notifier) (u : Addressee) (event : String) (p : Notice) (s : S)
      → wants_email u ≡ b
      → send channels (if b then email_decorator w else w) u event p s
        ≡ (by_mail u event p >> send channels w u event p) s
  unfolding send
  mail_layer true w u event p s h = refl
  mail_layer false w u event p s h = rw h refl

  sms_layer :
      (c b : Bool) (w : Notifier) (u : Addressee) (event : String) (p : Notice) (s : S)
      → is_critical event p ≡ c
      → send channels (if c || b then sms_decorator w else w) u event p s
        ≡ (by_sms u event p >> send channels w u event p) s
  unfolding send
  sms_layer true b w u event p s h = refl
  sms_layer false true w u event p s h = refl
  sms_layer false false w u event p s h = rw h refl

  then_at :
      (r : Result Thrown (Unit {0}) × S) (n o : Exec S Thrown (Unit {0}))
      → ((t : S) → n t ≡ o t)
      → ((λ (s : S). r) >> n) r.1 ≡ ((λ (s : S). r) >> o) r.1
  then_at (ok u, t) n o h = h t
  then_at (err e, t) n o h = refl

  then_same :
      (m n o : Exec S Thrown (Unit {0})) (s : S) → ((t : S) → n t ≡ o t) → (m >> n) s ≡ (m >> o) s
  then_same m n o s h = then_at (m s) n o h

  delivered :
      (u : Addressee) (event : String) (p : Notice) (s : S)
      → notify channels u event p s
        ≡ (by_sms u event p >> (by_mail u event p >> by_socket u event p)) s
  unfolding notify build_notifier
  delivered u event p s =
      let live =
        if is_on u.pref_realtime
        then real_time_decorator base_notification
        else base_notification in
      let mailed = if wants_email u then email_decorator live else live in
      sms_layer (is_critical event p) (is_on u.pref_sms) mailed u event p s refl
      ∙ then_same (by_sms u event p) (send channels mailed u event p)
          (by_mail u event p >> by_socket u event p) s
          (λ t.
            mail_layer (wants_email u) live u event p t refl
            ∙ then_same (by_mail u event p) (send channels live u event p) (by_socket u event p) t
                (λ v. socket_layer (is_on u.pref_realtime) u event p v))

  -- A notification is sent by text message when it is critical, then by mail when the user has not
  -- opted out and the event is worth one, then to the user's socket when the user wants that; a
  -- channel that throws keeps those after it from being tried. Whether the user wants text messages
  -- makes no difference.
  pub notify_exact :
      (u : Addressee) (event : String) (p : Notice) (s : S)
      → (notify channels u event p s
          ≡ (by_sms u event p >> (by_mail u event p >> by_socket u event p)) s)
        × ((b : Option Bool)
            → notify channels (record u { pref_sms = b }) event p s ≡ notify channels u event p s)
  notify_exact u event p s =
      let exact = delivered u event p s in
      (exact, λ b. delivered (record u { pref_sms = b }) event p s ∙ sym exact)
