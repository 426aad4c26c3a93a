-- ===== src/Settings/Installing.antt =====
-- web/src/pages/Settings.tsx: what an installation shows, and when.
use sentry_usb.Base.{
  ℕ, suc, ◌≡◌, refl, Bool, true, false, not, ◌&&◌, ◌||◌, Option, none, some, List, [], ◌∷◌, String,
  arith, ◌==◌, zero,
}
use sentry_usb.Settings.Update.{Update}
use sentry_usb.Settings.Install.{
  Install, handle_install_update, receive, ok, failed, internet_reply, update_reply,
  start_reconnecting, version_reply, give_up, fail, fail_offline, Event, message, internet_replied,
  update_replied, start_fired, ticked, version_replied, guard_fired, rested, is_internet, is_update,
  step, run, take_reply,
}

-- The timers never overlap in the wrong way: the messages are not listened to once the version is
-- polled, polls have a guard, and nothing is polled once the device is back.
abbrev pub orderly : Install → Bool
orderly i =
    (not (is_internet i.awaited || is_update i.awaited)
      || (not i.start_timer
          && not i.poll_interval
          && not i.guard_timer
          && not i.reconnected
          && i.polls == 0))
    && (not i.start_timer
        || (not i.poll_interval && not i.guard_timer && not i.reconnected && i.polls == 0))
    && (not i.poll_interval || (not i.subscribed && i.guard_timer && not i.reconnected))
    && (not (i.guard_timer || i.reconnected || not (i.polls == 0)) || not i.subscribed)

take_reply-orderly :
    (r : Option (Option String)) (i : Install) (n : ℕ)
    → i.polls ≡ n
    → orderly i ≡ true
    → orderly (take_reply r i n) ≡ true
unfolding version_reply
take_reply-orderly r i zero e h = h
take_reply-orderly none i (suc n) e h = ground (arith, e, h)
take_reply-orderly (some v) i (suc n) e h = ground (arith, e, h)

step-orderly : (e : Event) (i : Install) → orderly i ≡ true → orderly (step e i) ≡ true
unfolding step receive internet_reply update_reply start_reconnecting give_up fail fail_offline
step-orderly (message m) i h = ground (arith, h)
step-orderly (internet_replied (ok true)) i h = ground (arith, h)
step-orderly (internet_replied (ok false)) i h = ground (arith, h)
step-orderly (internet_replied (failed text)) i h = ground (arith, h)
step-orderly (update_replied (ok true)) i h = ground (arith, h)
step-orderly (update_replied (ok false)) i h = ground (arith, h)
step-orderly (update_replied (failed text)) i h = ground (arith, h)
step-orderly start_fired i h = ground (arith, h)
step-orderly ticked i h = ground (arith, h)
step-orderly (version_replied r) i h = take_reply-orderly r i i.polls refl h
step-orderly guard_fired i h = ground (arith, h)
step-orderly rested i h = ground (arith, h)

run-orderly : (es : List Event) (i : Install) → orderly i ≡ true → orderly (run es i) ≡ true
run-orderly [] i h = h
run-orderly (e ∷ es) i h = run-orderly es (step e i) (step-orderly e i h)

-- A poll has its guard and no listener, and what has ended is not polled or listened to.
abbrev pub is_guarded : Install → Bool
is_guarded i =
    (not i.poll_interval || (i.guard_timer && not i.subscribed && not i.reconnected))
    && (not i.reconnected || not i.subscribed)

-- Whatever happens after the start of an installation: while the version is polled, the timer that
-- ends the polls is set, the messages of the server are not listened to, and no version has been
-- read; and they are not listened to after a version was read either.
run-guarded : (s : Update) (es : List Event) → is_guarded (run es (handle_install_update s)) ≡ true
unfolding handle_install_update
run-guarded s es =
    let start : orderly (handle_install_update s) ≡ true = ground arith in
    ground (arith, run-orderly es (handle_install_update s) start)
