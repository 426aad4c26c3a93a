-- ===== src/Ws/Retry.antt =====
-- web/src/lib/ws.ts: `scheduleReconnect`: a lost connection is tried again.
use sentry_usb.Base.{ℕ, ◌<◌, ◌≡◌, true, none, some, arith, String}
use sentry_usb.Ws.{
  Client, connecting, closed, initial, connect, disconnect, reconnect, subscribe, unsubscribe,
  on_open, on_close, on_message, on_error, ping_tick, reconnect_fire, on_status_change,
  off_status_change, Step, Reach, here, next, call_connect, call_disconnect, call_reconnect,
  call_subscribe, call_unsubscribe, call_listen, call_unlisten, socket_open, socket_message,
  socket_close, socket_error, ping_timer, reconnect_timer,
}

-- The client's socket was made by it, and if it is closed then a retry is scheduled.
pub record IsRetrying (c : Client) : Type 0 where
  pub known : (i : ℕ) → c.ws ≡ some i → i < c.made
  pub retried : (i : ℕ) → c.ws ≡ some i → c.sockets i ≡ closed → c.reconnect_timer ≡ true

initial-IsRetrying : IsRetrying initial
unfolding initial
initial-IsRetrying = record { known = λ i e. cc; retried = λ i e. cc }

connect-IsRetrying : (c : Client) → IsRetrying c → IsRetrying (connect c)
unfolding connect
connect-IsRetrying c h = record {
  known = λ i e. ground (arith, h.known i);
  retried = λ i e k. ground (arith, h.retried i);
}

disconnect-IsRetrying : (c : Client) → IsRetrying (disconnect c)
unfolding disconnect
disconnect-IsRetrying c = record { known = λ i e. cc; retried = λ i e. cc }

subscribe-IsRetrying :
    (t : String) (k : ℕ) (c : Client) → IsRetrying c → IsRetrying (subscribe t k c)
unfolding subscribe
subscribe-IsRetrying t k c h = record {
  known = λ i e. ground (arith, h.known i);
  retried = λ i e q. ground (arith, h.retried i);
}

Step-IsRetrying : {c d : Client} → Step c d → IsRetrying c → IsRetrying d
Step-IsRetrying (call_connect c) h = connect-IsRetrying c h
Step-IsRetrying (call_disconnect c) h = disconnect-IsRetrying c
Step-IsRetrying (call_reconnect c) h =
    unfold reconnect in connect-IsRetrying (disconnect c) (disconnect-IsRetrying c)
Step-IsRetrying (call_subscribe t k c) h = subscribe-IsRetrying t k c h
Step-IsRetrying (call_unsubscribe t k c) h =
    unfold unsubscribe in
    record {
      known = λ i e. ground (arith, h.known i);
      retried = λ i e q. ground (arith, h.retried i);
    }
Step-IsRetrying (call_listen cb c) h =
    unfold on_status_change in record { known = h.known; retried = h.retried }
Step-IsRetrying (call_unlisten cb c) h =
    unfold off_status_change in record { known = h.known; retried = h.retried }
Step-IsRetrying (socket_open j c w) h =
    unfold on_open in
    record {
      known = λ i e. ground (arith, h.known i);
      retried = λ i e q. ground (arith, h.retried i);
    }
Step-IsRetrying (socket_message throws none c) h = unfold on_message in h
Step-IsRetrying (socket_message throws (some (t, p)) c) h =
    unfold on_message in
    record {
      known = λ i e. ground (arith, h.known i);
      retried = λ i e q. ground (arith, h.retried i);
    }
Step-IsRetrying (socket_close j c w) h =
    unfold on_close in
    record { known = λ i e. ground (arith, h.known i); retried = λ i e q. ground arith }
Step-IsRetrying (socket_error j c) h =
    unfold on_error in
    record {
      known = λ i e. ground (arith, h.known i);
      retried = λ i e q. ground (arith, h.retried i);
    }
Step-IsRetrying (ping_timer c w) h =
    unfold ping_tick in
    record {
      known = λ i e. ground (arith, h.known i);
      retried = λ i e q. ground (arith, h.retried i);
    }
Step-IsRetrying (reconnect_timer c w) h =
    unfold reconnect_fire in
    record {
      known = λ i e. ground (arith, h.known i);
      retried = λ i e q. ground (arith, h.retried i);
    }

Reach-IsRetrying : {c : Client} → Reach initial c → IsRetrying c
Reach-IsRetrying here = initial-IsRetrying
Reach-IsRetrying (next r st) = Step-IsRetrying st (Reach-IsRetrying r)

-- In every state that a fresh client can reach, if its socket is closed then the reconnect timer
-- is set, and when the timer fires the client has a new socket, which is connecting.
pub lost_connection_retried :
    {c : Client} (i : ℕ)
    → Reach initial c
    → c.ws ≡ some i
    → c.sockets i ≡ closed
    → (c.reconnect_timer ≡ true)
      × ((reconnect_fire c).ws ≡ some c.made)
      × ((reconnect_fire c).sockets c.made ≡ connecting)
unfolding reconnect_fire
lost_connection_retried i r e k = ((Reach-IsRetrying r).retried i e k, ground arith, ground arith)
