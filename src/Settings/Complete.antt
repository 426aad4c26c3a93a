-- ===== src/Settings/Complete.antt =====
-- web/src/pages/Settings.tsx: when an installation is said to be complete.
use sentry_usb.Base.Text.{truthy}
use sentry_usb.Base.{
  ℕ, suc, ◌≡◌, refl, Bool, true, false, not, ◌&&◌, Option, none, some, List, [], ◌∷◌, any, String,
  arith, Bool-cases, inl, inr, ◌==◌, zero,
}
use sentry_usb.Settings.Update.{done, error, Update}
use sentry_usb.Settings.Install.{
  Install, handle_install_update, Message, receive, ok, failed, internet_reply, update_reply,
  start_reconnecting, version_reply, give_up, fail, fail_offline, Event, message, internet_replied,
  update_replied, start_fired, ticked, version_replied, guard_fired, rested, is_update, step, run,
  take_reply, show_message,
}

-- the update was accepted; the timer of 20 seconds fired; the version was read
abbrev pub is_accepted : Event → Bool
is_accepted (message m) = false
is_accepted (internet_replied r) = false
is_accepted (update_replied (ok accepted)) = accepted
is_accepted (update_replied (failed text)) = false
is_accepted start_fired = false
is_accepted ticked = false
is_accepted (version_replied r) = false
is_accepted guard_fired = false
is_accepted rested = false

abbrev pub is_start : Event → Bool
is_start (message m) = false
is_start (internet_replied r) = false
is_start (update_replied r) = false
is_start start_fired = true
is_start ticked = false
is_start (version_replied r) = false
is_start guard_fired = false
is_start rested = false

abbrev pub is_version : Event → Bool
is_version (message m) = false
is_version (internet_replied r) = false
is_version (update_replied r) = false
is_version start_fired = false
is_version ticked = false
is_version (version_replied none) = false
is_version (version_replied (some v)) = true
is_version guard_fired = false
is_version rested = false

-- The stages that an installation has not come to.
abbrev not_back : Install → Bool
not_back i = not i.reconnected

abbrev not_polled : Install → Bool
not_polled i = not i.reconnected && not i.poll_interval && i.polls == 0

abbrev not_started : Install → Bool
not_started i = not_polled i && not i.start_timer

take_reply-not_back :
    (r : Option (Option String)) (i : Install) (n : ℕ)
    → not_back i ≡ true
    → is_version (version_replied r) ≡ false
    → not_back (take_reply r i n) ≡ true
unfolding version_reply
take_reply-not_back r i zero h k = h
take_reply-not_back none i (suc n) h k = h
take_reply-not_back (some v) i (suc n) h k = ground (arith, k)

take_reply-none : (r : Option (Option String)) (i : Install) (n : ℕ) → n ≡ 0 → take_reply r i n ≡ i
take_reply-none r i zero h = refl
take_reply-none r i (suc n) h = ground (arith, h)

step-not_back :
    (e : Event) (i : Install)
    → not_back i ≡ true
    → is_version e ≡ false
    → not_back (step e i) ≡ true
unfolding step receive internet_reply update_reply start_reconnecting give_up fail fail_offline
step-not_back (message m) i h k = ground (arith, h, k)
step-not_back (internet_replied (ok true)) i h k = ground (arith, h, k)
step-not_back (internet_replied (ok false)) i h k = ground (arith, h, k)
step-not_back (internet_replied (failed text)) i h k = ground (arith, h, k)
step-not_back (update_replied (ok true)) i h k = ground (arith, h, k)
step-not_back (update_replied (ok false)) i h k = ground (arith, h, k)
step-not_back (update_replied (failed text)) i h k = ground (arith, h, k)
step-not_back start_fired i h k = ground (arith, h, k)
step-not_back ticked i h k = ground (arith, h, k)
step-not_back (version_replied r) i h k = take_reply-not_back r i i.polls h k
step-not_back guard_fired i h k = ground (arith, h, k)
step-not_back rested i h k = ground (arith, h, k)

step-not_polled :
    (e : Event) (i : Install)
    → not_polled i ≡ true
    → is_start e ≡ false
    → not_polled (step e i) ≡ true
unfolding step receive internet_reply update_reply start_reconnecting give_up fail fail_offline
step-not_polled (message m) i h k = ground (arith, h, k)
step-not_polled (internet_replied (ok true)) i h k = ground (arith, h, k)
step-not_polled (internet_replied (ok false)) i h k = ground (arith, h, k)
step-not_polled (internet_replied (failed text)) i h k = ground (arith, h, k)
step-not_polled (update_replied (ok true)) i h k = ground (arith, h, k)
step-not_polled (update_replied (ok false)) i h k = ground (arith, h, k)
step-not_polled (update_replied (failed text)) i h k = ground (arith, h, k)
step-not_polled start_fired i h k = ground (arith, h, k)
step-not_polled ticked i h k = ground (arith, h, k)
step-not_polled (version_replied r) i h k = rw (take_reply-none r i i.polls (ground (arith, h))) h
step-not_polled guard_fired i h k = ground (arith, h, k)
step-not_polled rested i h k = ground (arith, h, k)

step-not_started :
    (e : Event) (i : Install)
    → not_started i ≡ true
    → is_accepted e ≡ false
    → not_started (step e i) ≡ true
unfolding step receive internet_reply update_reply start_reconnecting give_up fail fail_offline
step-not_started (message m) i h k = ground (arith, h, k)
step-not_started (internet_replied (ok true)) i h k = ground (arith, h, k)
step-not_started (internet_replied (ok false)) i h k = ground (arith, h, k)
step-not_started (internet_replied (failed text)) i h k = ground (arith, h, k)
step-not_started (update_replied (ok true)) i h k = ground (arith, h, k)
step-not_started (update_replied (ok false)) i h k = ground (arith, h, k)
step-not_started (update_replied (failed text)) i h k = ground (arith, h, k)
step-not_started start_fired i h k = ground (arith, h, k)
step-not_started ticked i h k = ground (arith, h, k)
step-not_started (version_replied r) i h k = rw (take_reply-none r i i.polls (ground (arith, h))) h
step-not_started guard_fired i h k = ground (arith, h, k)
step-not_started rested i h k = ground (arith, h, k)

-- A stage that only events of a kind leave.
module _ (stage : Install → Bool) (kind : Event → Bool)
    (keep : (e : Event) (i : Install)
      → stage i ≡ true
      → kind e ≡ false
      → stage (step e i) ≡ true) where
  run-stage :
      (es : List Event) (i : Install)
      → stage i ≡ true
      → any kind es ≡ false
      → stage (run es i) ≡ true
  run-stage [] i h k = h
  run-stage (e ∷ es) i h k =
      run-stage es (step e i) (keep e i h (ground (arith, k))) (ground (arith, k))

  left_stage :
      (es : List Event) (i : Install)
      → stage i ≡ true
      → stage (run es i) ≡ false
      → any kind es ≡ true
  left_stage es i h k = elim (Bool-cases (any kind es)) [
    | inl left ↦ left
    | inr stayed ↦ ground (arith, k, run-stage es i h stayed)
  ]

-- When an installation has come back and says that the update is complete, the update was
-- accepted, the timer of 20 seconds fired, and a version was read.
pub run-reconnected :
    (s : Update) (es : List Event)
    → (run es (handle_install_update s)).reconnected ≡ true
    → (any is_accepted es && any is_start es && any is_version es) ≡ true
unfolding handle_install_update
run-reconnected s es h =
    let i = handle_install_update s in
    let accepted : any is_accepted es ≡ true =
      left_stage not_started is_accepted step-not_started es i (ground arith) (ground (arith, h)) in
    let started : any is_start es ≡ true =
      left_stage not_polled is_start step-not_polled es i (ground arith) (ground (arith, h)) in
    let read : any is_version es ≡ true =
      left_stage not_back is_version step-not_back es i (ground arith) (ground (arith, h)) in
    ground (arith, accepted, started, read)

-- a list of messages, and the events that follow an accepted update
abbrev pub receive_all : List Message → Install → Install
receive_all [] i = i
receive_all (m ∷ ms) i = receive_all ms (step (message m) i)

abbrev pub after_restart : Option String → List Event
after_restart v = start_fired ∷ ticked ∷ version_replied (some v) ∷ []

receive_all-listens :
    (ms : List Message) (i : Install)
    → (i.start_timer && i.subscribed) ≡ true
    → ((receive_all ms i).start_timer && (receive_all ms i).subscribed) ≡ true
unfolding step receive
receive_all-listens [] i h = h
receive_all-listens (m ∷ ms) i h = receive_all-listens ms (step (message m) i) (ground (arith, h))

-- When the server reports an error after it has accepted the update, after any messages, the page
-- shows the error at first; but the timer of 20 seconds still runs, and as soon as the version can be
-- read the page says that the update is done, with the error still set.
pub failed_update-done :
    (i : Install) (ms : List Message) (m : Message) (v : Option String)
    → is_update i.awaited ≡ true
    → i.subscribed ≡ true
    → truthy m.error_text ≡ true
    → let j = step (message m) (receive_all ms (step (update_replied (ok true)) i)) in
      (j.page.update_status ≡ error)
      × ((run (after_restart v) j).page.update_status ≡ done)
      × ((run (after_restart v) j).page.update_error ≡ m.error_text)
unfolding step receive update_reply show_message start_reconnecting version_reply
failed_update-done i ms m v a l t =
    let k = step (update_replied (ok true)) i in
    let on = receive_all-listens ms k (ground (arith, a, l)) in
    let started : (receive_all ms k).start_timer ≡ true = ground (arith, on) in
    let listens : (receive_all ms k).subscribed ≡ true = ground (arith, on) in
    rw (listens, started, t) (refl, refl, refl)
