-- ===== src/Notifications/Tests.antt =====
-- Two notifications with one key, through an adapter that counts.
use peer_core.Notifications.Once.{notify_in-once}
use peer_core.Tenancy.Rows.{select_one}
use peer_core.Action.{Result, ok, World}
use peer_core.Notifications.{
  opted_out, deduped, sent, notice, Notices, notify_in, Notification-scoped, OptOut-scoped,
}
use peer_core.Orders.Services.{Channel, NotifyInput, sms, whatsapp}
use peer_core.Base.{◌∷◌, ◌+◌, ◌⊎◌, [], ℕ, ◌≡◌, String, some, refl}

abbrev counting : Channel → String → String → ℕ → Result (Unit {0}) × ℕ
counting channel recipient body n = (ok tt, n + 1)

abbrev ready : NotifyInput
ready = record {
  recipient = "+9665";
  channel = whatsapp;
  event = "order_READY";
  body = "Your order is ready.";
  dedupe_key = some "1:READY";
}

abbrev start : World Notices ℕ
start = record { db = record { notifications = []; optouts = [] }; outside = 0 }

abbrev after : World Notices ℕ
after = record { db = record { notifications = notice 7 5 ready ∷ []; optouts = [] }; outside = 1 }

sent-run : notify_in counting 7 5 ready start ≡ (ok (sent 5), after)
unfolding notify_in select_one
sent-run = refl

notify_in-once_example :
    (notify_in counting 7 6 (record ready { channel = sms }) after ≡ (ok deduped, after))
    ⊎ (notify_in counting 7 6 (record ready { channel = sms }) after ≡ (ok opted_out, after))
notify_in-once_example =
    notify_in-once counting 7 5 5 6 ready (record ready { channel = sms }) "1:READY" start after
      refl refl sent-run
