-- ===== src/KeepAwake/Examples.antt =====
-- web/src/hooks/useKeepAwake.tsx: a stop with a poll in flight, and activity within 30 seconds.
use sentry_usb.Base.{◌≡◌, refl, true, none, some, List, [], ◌∷◌}
use sentry_usb.KeepAwake.{
  KeepAwakeStatus, active, idle_status, mount, stop, start_begin, start_finish, update_mode_saved,
  on_activity, auto_effect, load_preference, poll_begin,
}
use sentry_usb.KeepAwake.Polls.{Poll, polls_finish, last_fresh, polls_after_mutation}
use sentry_usb.KeepAwake.Heartbeats.{
  Event, preference_loaded, poll_started, activity, mode_effect, run, step, beats, IsSpaced,
  run-IsSpaced,
}

abbrev awake : KeepAwakeStatus
awake = record { state = active; mode = "manual"; expires_at = none; remaining_sec = some 900 }

abbrev in_flight : List Poll
in_flight = record { started_at = 40; mounted = true; reply = awake } ∷ []

polls_after_mutation_example :
    ((polls_finish in_flight (stop 50 mount)).status ≡ last_fresh 50 idle_status in_flight)
    × ((polls_finish in_flight (update_mode_saved "" 50 mount)).status
        ≡ last_fresh 50 idle_status in_flight)
    × ((polls_finish in_flight (start_begin 50 15 mount)).status
        ≡ last_fresh 50 mount.status in_flight)
    × ((polls_finish in_flight (start_finish awake (start_begin 50 15 mount))).status
        ≡ last_fresh 50 awake in_flight)
polls_after_mutation_example = polls_after_mutation in_flight 50 15 awake mount

abbrev events : List Event
events =
    preference_loaded (some (some "auto"))
    ∷ mode_effect 100000
    ∷ activity 110000
    ∷ poll_started
    ∷ activity 130000
    ∷ activity 159999
    ∷ []

run_sent : beats (run events mount).sent ≡ 130000 ∷ 100000 ∷ []
unfolding run step on_activity auto_effect load_preference poll_begin mount
run_sent = refl

run-IsSpaced_example : IsSpaced (run events mount).last_heartbeat (beats (run events mount).sent)
run-IsSpaced_example = run-IsSpaced events refl
