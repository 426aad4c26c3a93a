-- ===== src/Connection/Failures.antt =====
-- web/src/hooks/useConnectionStatus.tsx: what the shown state says about the checks made so far.
use sentry_usb.Base.{
  ℕ, suc, ◌≡◌, ◌≤◌, ◌↔◌, refl, Bool, true, false, List, [], ◌∷◌, arith, if◌then◌else◌,
}
use sentry_usb.Ws.{Client}
use sentry_usb.Connection.{
  connected, disconnected, Event, polled, poll_failed, clicked, retried, retry_failed, step, mount,
  run,
}

-- The latest thing that happened: a successful check (or none yet), a failed one, or a click.
pub data Latest : Type 0 where
  success failure click : Latest

abbrev pub of_check : Bool → Latest
of_check true = success
of_check false = failure

abbrev pub latest : List Event → Latest
latest [] = success
latest (polled true ok ∷ es) = of_check ok
latest (polled false ok ∷ es) = latest es
latest (poll_failed true ∷ es) = failure
latest (poll_failed false ∷ es) = latest es
latest (clicked ∷ es) = click
latest (retried ok ∷ es) = of_check ok
latest (retry_failed ∷ es) = failure

-- The failures since the last success. A retry that gets an error response is not counted.
abbrev pub failures : List Event → ℕ
failures [] = 0
failures (polled true ok ∷ es) = if ok then 0 else suc (failures es)
failures (polled false ok ∷ es) = failures es
failures (poll_failed true ∷ es) = suc (failures es)
failures (poll_failed false ∷ es) = failures es
failures (clicked ∷ es) = failures es
failures (retried ok ∷ es) = if ok then 0 else failures es
failures (retry_failed ∷ es) = suc (failures es)

record Agrees (c : Client) (es : List Event) : Type 0 where
  counted : (run c es).http_fail_count ≡ failures es
  up : ((run c es).state ≡ connected) ↔ (latest es ≡ success)
  down : ((run c es).state ≡ disconnected) ↔ ((latest es ≡ failure) × (3 ≤ failures es))

run-Agrees : (c : Client) (es : List Event) → Agrees c es
unfolding run step mount
run-Agrees c [] = record { counted = refl; up = (λ e. refl, λ e. refl); down = (λ e. cc, λ e. cc) }
run-Agrees c (polled true true ∷ es) = ground (arith, run-Agrees c es)
run-Agrees c (polled true false ∷ es) = ground (arith, run-Agrees c es)
run-Agrees c (polled false ok ∷ es) =
    let h = run-Agrees c es in record { counted = h.counted; up = h.up; down = h.down }
run-Agrees c (poll_failed true ∷ es) = ground (arith, run-Agrees c es)
run-Agrees c (poll_failed false ∷ es) =
    let h = run-Agrees c es in record { counted = h.counted; up = h.up; down = h.down }
run-Agrees c (clicked ∷ es) = ground (arith, run-Agrees c es)
run-Agrees c (retried true ∷ es) = ground (arith, run-Agrees c es)
run-Agrees c (retried false ∷ es) = ground (arith, run-Agrees c es)
run-Agrees c (retry_failed ∷ es) = ground (arith, run-Agrees c es)

-- After any history of polls, retry clicks and their ends, the banner shows "connected" exactly
-- when the latest of them was a successful check (or there was none), "disconnected" exactly
-- when it was a failed check and at least three failures were counted since the last success,
-- and so "reconnecting" otherwise.
pub run-state_iff :
    (c : Client) (es : List Event)
    → (((run c es).state ≡ connected) ↔ (latest es ≡ success))
      × (((run c es).state ≡ disconnected) ↔ ((latest es ≡ failure) × (3 ≤ failures es)))
run-state_iff c es = let h = run-Agrees c es in (h.up, h.down)
