-- ===== src/Ws/Status.antt =====
-- web/src/lib/ws.ts: `setConnected`, the status listeners and the ping timer.
use mathlib.Core.List.{reverse, reverse-cons, append_assoc}
use sentry_usb.Base.{
  ℕ, ◌≡◌, refl, Bool, true, false, none, some, List, [], ◌∷◌, ◌++◌, map, arith, if◌then◌else◌, ◌∙◌,
}
use sentry_usb.Ws.{
  Client, Effect, notify, deliver, ping, initial, notify_all, same_bool, connect, disconnect,
  reconnect, subscribe, unsubscribe, on_open, on_close, on_message, on_error, ping_tick,
  reconnect_fire, on_status_change, off_status_change, Step, Reach, here, next, deliver_all,
  call_connect, call_disconnect, call_reconnect, call_subscribe, call_unsubscribe, call_listen,
  call_unlisten, socket_open, socket_message, socket_close, socket_error, ping_timer,
  reconnect_timer,
}

-- the calls of status listeners in a log
abbrev pub notifications : List Effect → List (ℕ × Bool)
notifications [] = []
notifications (notify cb v ∷ log) = (cb, v) ∷ notifications log
notifications (deliver h p ∷ log) = notifications log
notifications (ping i ∷ log) = notifications log

-- every listener told `v`, in the order of the set (a log has the latest first)
abbrev pub told : List ℕ → Bool → List (ℕ × Bool)
told cbs v = reverse (map (λ cb. (cb, v)) cbs)

notifications-notify_all :
    (cbs : List ℕ) (v : Bool) (log : List Effect)
    → notifications (notify_all cbs v log) ≡ told cbs v ++ notifications log
unfolding notify_all
notifications-notify_all [] v log = refl
notifications-notify_all (cb ∷ cbs) v log =
    notifications-notify_all cbs v (notify cb v ∷ log) ∙ rw (reverse-cons, append_assoc)

notifications-deliver_all :
    (throws : ℕ → Bool) (hs : List ℕ) (p : ℕ) (log : List Effect)
    → notifications (deliver_all throws hs p log) ≡ notifications log
unfolding deliver_all
notifications-deliver_all throws [] p log = refl
notifications-deliver_all throws (h ∷ hs) p log =
    ground (arith, notifications-deliver_all throws hs p (deliver h p ∷ log))

-- what a step tells the listeners
abbrev pub news : Client → Client → List (ℕ × Bool)
news c d = if same_bool c.connected d.connected then [] else told c.status_listeners d.connected

-- Whatever happens, the status listeners are told exactly when the connected flag changes: each
-- registered listener once, in order, and with the new value; otherwise none of them is called.
pub Step-notifications :
    {c d : Client} → Step c d → notifications d.log ≡ news c d ++ notifications c.log
unfolding connect disconnect reconnect subscribe unsubscribe on_status_change off_status_change
Step-notifications (call_connect c) = ground arith
Step-notifications (call_disconnect c) = ground arith
Step-notifications (call_reconnect c) = ground arith
Step-notifications (call_subscribe t h c) = ground arith
Step-notifications (call_unsubscribe t h c) = ground arith
Step-notifications (call_listen cb c) = ground arith
Step-notifications (call_unlisten cb c) = ground arith
Step-notifications (socket_open i c e) =
    unfold on_open in ground (arith, notifications-notify_all c.status_listeners true c.log)
Step-notifications (socket_message throws none c) = unfold on_message in ground arith
Step-notifications (socket_message throws (some (t, p)) c) =
    unfold on_message in grind (arith, notifications-deliver_all)
Step-notifications (socket_close i c e) =
    unfold on_close in ground (arith, notifications-notify_all c.status_listeners false c.log)
Step-notifications (socket_error i c) = unfold on_error in ground arith
Step-notifications (ping_timer c e) = unfold ping_tick in ground arith
Step-notifications (reconnect_timer c e) = unfold reconnect_fire in ground arith

Step-ping_connected :
    {c d : Client}
    → Step c d
    → (c.ping_timer ≡ true → c.connected ≡ true)
    → d.ping_timer ≡ true
    → d.connected ≡ true
unfolding connect disconnect reconnect subscribe unsubscribe on_status_change off_status_change
Step-ping_connected (call_connect c) h p = ground arith
Step-ping_connected (call_disconnect c) h p = ground arith
Step-ping_connected (call_reconnect c) h p = ground arith
Step-ping_connected (call_subscribe t k c) h p = ground arith
Step-ping_connected (call_unsubscribe t k c) h p = ground arith
Step-ping_connected (call_listen cb c) h p = h p
Step-ping_connected (call_unlisten cb c) h p = h p
Step-ping_connected (socket_open i c e) h p = unfold on_open in ground arith
Step-ping_connected (socket_message throws none c) h p = unfold on_message in h p
Step-ping_connected (socket_message throws (some (t, q)) c) h p = unfold on_message in ground arith
Step-ping_connected (socket_close i c e) h p = unfold on_close in ground arith
Step-ping_connected (socket_error i c) h p = unfold on_error in ground arith
Step-ping_connected (ping_timer c e) h p = unfold ping_tick in ground arith
Step-ping_connected (reconnect_timer c e) h p = unfold reconnect_fire in ground arith

-- In every state that a fresh client can reach, the ping interval runs only while the client
-- counts as connected.
Reach-ping_connected : {c : Client} → Reach initial c → c.ping_timer ≡ true → c.connected ≡ true
unfolding initial
Reach-ping_connected here p = cc
Reach-ping_connected (next r st) p = Step-ping_connected st (Reach-ping_connected r) p
