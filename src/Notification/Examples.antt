-- ===== src/Notification/Examples.antt =====
-- The channels of a notification, over a log of what was sent.
use campusops.Common.{◌≡◌, refl, String, Bool, true, Option, none, some, List, [], ◌∷◌, ◌++◌}
use campusops.Common.Exec.{ok, ◌>>◌}
use campusops.Notification.{Addressee, Notice, Channels, notify, is_critical, send, build_notifier}
use campusops.Notification.Delivery.{by_sms, by_mail, by_socket, notify_exact}

abbrev ledger : Channels (List String)
ledger = record {
  emit = λ r e p s. (ok tt, s ++ "socket" ∷ []);
  send_mail = λ a e p s. (ok tt, s ++ "mail" ∷ []);
  send_sms = λ n e p s. (ok tt, s ++ "sms" ∷ []);
}

abbrev ravi : Addressee
ravi = record {
  id = "U2";
  email = some "ravi@college.edu";
  phone = some "555";
  pref_realtime = some true;
  pref_email = none;
  pref_sms = some true;
}

abbrev notice : Notice
notice = record {
  priority = some "HIGH";
  incident_number = some "INC-1";
  reason = none;
  message = none;
}

-- A resolution of high priority, for a user who wants text messages, is sent by mail and socket only.
ravi_hears : notify ledger ravi "INCIDENT_RESOLVED" notice [] ≡ (ok tt, "mail" ∷ "socket" ∷ [])
unfolding notify is_critical send build_notifier
ravi_hears = refl

notify_exact_example :
    (notify ledger ravi "INCIDENT_RESOLVED" notice []
      ≡ (by_sms ledger ravi "INCIDENT_RESOLVED" notice
            >> (by_mail ledger ravi "INCIDENT_RESOLVED" notice
                >> by_socket ledger ravi "INCIDENT_RESOLVED" notice))
          [])
    × ((b : Option Bool)
        → notify ledger (record ravi { pref_sms = b }) "INCIDENT_RESOLVED" notice []
          ≡ notify ledger ravi "INCIDENT_RESOLVED" notice [])
notify_exact_example = notify_exact ledger ravi "INCIDENT_RESOLVED" notice []
