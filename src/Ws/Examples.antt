-- ===== src/Ws/Examples.antt =====
-- web/src/lib/ws.ts: runs of the client, and the theorems at concrete states.
use sentry_usb.Base.{ℕ, Bool, suc, ◌≡◌, refl, true, false, some, arith, [], ◌∷◌, ◌++◌}
use sentry_usb.Ws.{
  Client, connecting, ws_open, initial, connect, reconnect, subscribe, unsubscribe, on_open,
  on_close, on_message, reconnect_fire, on_status_change, Reach, here, next, call_subscribe,
  call_reconnect, call_connect, call_listen, socket_open, socket_close, add_member, notify_all,
  notify,
}
use sentry_usb.Ws.Status.{notifications, news, Step-notifications}
use sentry_usb.Ws.Retry.{lost_connection_retried}
use sentry_usb.Ws.Subscribe.{deliveries}
use sentry_usb.Ws.Delivery.{subscribe_delivers, unsubscribe_silences}
use sentry_usb.Ws.Closing.{reconnect-stale_close}

-- a client with a listener, a subscriber and an open socket
abbrev up : Client
up = on_open 0 (subscribe "progress" 7 (on_status_change 5 initial))

up-Reach : Reach initial up
unfolding initial connect subscribe on_status_change
up-Reach =
    next (next (next here (call_listen 5 initial)) (call_subscribe "progress" 7 _))
      (socket_open 0 (subscribe "progress" 7 (on_status_change 5 initial)) refl)

abbrev down : Client
down = on_close 0 up

down-Reach : Reach initial down
unfolding initial connect subscribe on_status_change on_open
down-Reach = next up-Reach (socket_close 0 up (λ e. cc))

life : (down.log ≡ notify 5 false ∷ notify 5 true ∷ []) × (down.reconnect_timer ≡ true)
unfolding initial connect subscribe on_status_change on_open on_close add_member notify_all
life = (refl, refl)

Step-notifications_example : notifications down.log ≡ news up down ++ notifications up.log
unfolding initial connect subscribe on_status_change on_open
Step-notifications_example = Step-notifications (socket_close 0 up (λ e. cc))

lost_connection_retried_example :
    (down.reconnect_timer ≡ true)
    × ((reconnect_fire down).ws ≡ some down.made)
    × ((reconnect_fire down).sockets down.made ≡ connecting)
unfolding initial connect subscribe on_status_change on_open on_close
lost_connection_retried_example = lost_connection_retried 0 down-Reach refl refl

-- nobody throws
abbrev calm : ℕ → Bool
calm k = false

-- the handler 7 again, and then the client reconnects
abbrev again : Client
again = subscribe "progress" 7 up

abbrev later : Reach again (reconnect again)
later = next here (call_reconnect again)

subscribe_delivers_example :
    deliveries 7 3 (on_message calm (some ("progress", 3)) (reconnect again)).log
    ≡ suc (deliveries 7 3 (reconnect again).log)
subscribe_delivers_example = subscribe_delivers "progress" 7 3 calm up-Reach later refl (λ k. refl)

unsubscribe_silences_example :
    deliveries 7 3
      (on_message calm (some ("progress", 3)) (connect (unsubscribe "progress" 7 up))).log
    ≡ deliveries 7 3 (connect (unsubscribe "progress" 7 up)).log
unsubscribe_silences_example =
    unsubscribe_silences up "progress" 7 3 calm
      (next here (call_connect (unsubscribe "progress" 7 up))) refl

reconnect-stale_close_example :
    let d = on_close 0 (on_open up.made (reconnect up)) in
    let e = reconnect_fire d in
    (ws_open e.ws e.sockets ≡ true)
    × (e.connected ≡ false)
    × (e.ping_timer ≡ false)
    × (e.ws ≡ some up.made)
    × (d.reconnect_timer ≡ true)
    × (e.reconnect_timer ≡ false)
unfolding initial connect subscribe on_status_change on_open
reconnect-stale_close_example = reconnect-stale_close up 0 refl refl (omega arith)
