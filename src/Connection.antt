-- ===== src/Connection.antt =====
-- web/src/hooks/useConnectionStatus.tsx: the connection state shown in the banner. The HTTP polls
-- drive it; a retry also reconnects the WebSocket client of web/src/lib/ws.ts. A history lists the
-- events with the latest first.
pub mod Failures
mod Examples
use sentry_usb.Base.{ℕ, zero, suc, Bool, true, false, List, [], ◌∷◌, leb, if◌then◌else◌}
use sentry_usb.Ws.{Client, reconnect}

pub data ConnectionState : Type 0 where
  connected reconnecting disconnected : ConnectionState

pub record Provider : Type 0 where
  pub state : ConnectionState
  pub disconnect_timer : Bool
  pub http_ok : Bool
  pub http_fail_count : ℕ
  pub ws : Client

unfoldable pub mount : Client → Provider
mount c = record {
  state = connected;
  disconnect_timer = false;
  http_ok = true;
  http_fail_count = 0;
  ws = c;
}

unfoldable pub evaluate : Provider → Provider
evaluate p =
    if p.http_ok
    then record p { disconnect_timer = false; http_fail_count = 0; state = connected }
    else if leb 3 p.http_fail_count
    then record p { state = disconnected }
    else record p { state = reconnecting }

-- The two ends of a poll: a response with its `res.ok`, or an exception; `mounted` is the flag of
-- the effect that started the poll.
unfoldable pub poll_response : Bool → Bool → Provider → Provider
unfolding evaluate
poll_response mounted ok p =
    if mounted
    then evaluate
        (record p { http_ok = ok; http_fail_count = if ok then 0 else suc p.http_fail_count })
    else p

unfoldable pub poll_error : Bool → Provider → Provider
unfolding evaluate
poll_error mounted p =
    if mounted
    then evaluate (record p { http_ok = false; http_fail_count = suc p.http_fail_count })
    else p

-- `retry`, up to its own check of /api/status, and the two ends of that check
unfoldable pub retry : Provider → Provider
retry p = record p { ws = reconnect p.ws; state = reconnecting }

unfoldable pub retry_response : Bool → Provider → Provider
unfolding evaluate
retry_response ok p =
    evaluate (record p { http_ok = ok; http_fail_count = if ok then 0 else p.http_fail_count })

unfoldable pub retry_error : Provider → Provider
unfolding evaluate
retry_error p = evaluate (record p { http_ok = false; http_fail_count = suc p.http_fail_count })

pub data Event : Type 0 where
  polled : Bool → Bool → Event
  poll_failed : Bool → Event
  clicked : Event
  retried : Bool → Event
  retry_failed : Event

unfoldable pub step : Event → Provider → Provider
unfolding poll_response poll_error retry retry_response retry_error
step (polled mounted ok) p = poll_response mounted ok p
step (poll_failed mounted) p = poll_error mounted p
step clicked p = retry p
step (retried ok) p = retry_response ok p
step retry_failed p = retry_error p

unfoldable pub run : Client → List Event → Provider
run c [] = mount c
run c (e ∷ es) = step e (run c es)
