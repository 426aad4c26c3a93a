-- ===== src/Ws/Closing.antt =====
-- web/src/lib/ws.ts: `disconnect` and `reconnect` leave `onclose` attached to the old socket, and
-- its close event, which comes later, acts on the client again.
use sentry_usb.Base.{ℕ, ◌<◌, ◌≡◌, ◌≢◌, true, false, none, some, arith}
use sentry_usb.Ws.{
  Client, connecting, open_state, closed, ws_open, disconnect, reconnect, on_open, on_close,
  reconnect_fire,
}

-- A disconnect does not last: for a client whose socket is not closed yet, `disconnect` starts
-- the closing, the socket's close event then sets the reconnect timer, and when that fires the
-- client has a new socket, which is connecting.
disconnect-reconnects :
    (c : Client) (i : ℕ)
    → c.ws ≡ some i
    → c.sockets i ≢ closed
    → let d = on_close i (disconnect c) in
      ((disconnect c).ws ≡ none)
      × ((disconnect c).sockets i ≢ closed)
      × (d.reconnect_timer ≡ true)
      × ((reconnect_fire d).ws ≡ some c.made)
      × ((reconnect_fire d).sockets c.made ≡ connecting)
unfolding disconnect on_close reconnect_fire
disconnect-reconnects c i e k = ground arith

-- The old socket's close event after a `reconnect` whose new socket has opened: the client counts
-- as disconnected and sends no pings though its socket is open, and the retry changes nothing
-- of that, since `connect` returns at once.
pub reconnect-stale_close :
    (c : Client) (i : ℕ)
    → c.ws ≡ some i
    → c.sockets i ≡ open_state
    → i < c.made
    → let d = on_close i (on_open c.made (reconnect c)) in
      let e = reconnect_fire d in
      (ws_open e.ws e.sockets ≡ true)
      × (e.connected ≡ false)
      × (e.ping_timer ≡ false)
      × (e.ws ≡ some c.made)
      × (d.reconnect_timer ≡ true)
      × (e.reconnect_timer ≡ false)
unfolding reconnect on_open on_close reconnect_fire
reconnect-stale_close c i e k lt = ground arith
