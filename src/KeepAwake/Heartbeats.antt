-- ===== src/KeepAwake/Heartbeats.antt =====
-- web/src/hooks/useKeepAwake.tsx: `sendHeartbeat` is debounced, and how the debounce is lost.
use sentry_usb.Base.{
  ℕ, ◌+◌, ◌≤◌, ◌≡◌, refl, Bool, true, false, ◌&&◌, ◌||◌, Option, none, some, List, [], ◌∷◌, String,
  str_eq, arith, ltb, leb, if◌then◌else◌, Bool-cases, Option-cases, inl, inr,
}
use sentry_usb.KeepAwake.{
  Phase, KeepAwakeStatus, Hook, Request, post_heartbeat, post_start, put_preference, get_preference,
  get_status, delete_keep_awake, mount, load_preference, poll_begin, poll_finish, send_heartbeat,
  heartbeat_reply, on_activity, auto_effect, start_begin, start_finish, stop, update_mode_begin,
  update_mode_saved,
}

-- All that can happen to the hook, with the time where it is read.
pub data Event : Type 0 where
  preference_loaded : Option (Option String) → Event
  poll_started : Event
  polled : ℕ → Bool → KeepAwakeStatus → Event
  activity mode_effect : ℕ → Event
  beat_answered : Phase → Event
  start_pressed : ℕ → ℕ → Event
  started : KeepAwakeStatus → Event
  stopped : ℕ → Event
  mode_chosen : String → Event
  mode_saved : String → ℕ → Event

unfoldable pub step : Event → Hook → Hook
unfolding load_preference poll_begin poll_finish heartbeat_reply on_activity auto_effect start_begin
    start_finish stop update_mode_begin update_mode_saved
step (preference_loaded v) h = load_preference v h
step poll_started h = poll_begin h
step (polled started_at mounted reply) h = poll_finish started_at mounted reply h
step (activity now) h = on_activity now h
step (mode_effect now) h = auto_effect now h
step (beat_answered state) h = heartbeat_reply state h
step (start_pressed now minutes) h = start_begin now minutes h
step (started reply) h = start_finish reply h
step (stopped now) h = stop now h
step (mode_chosen mode) h = update_mode_begin mode h
step (mode_saved mode now) h = update_mode_saved mode now h

unfoldable pub run : List Event → Hook → Hook
run [] h = h
run (e ∷ es) h = run es (step e h)

-- whether the automatic mode is saved
abbrev pub saves_auto : List Event → Bool
saves_auto [] = false
saves_auto (mode_saved mode now ∷ es) = str_eq mode "auto" || saves_auto es
saves_auto (_ ∷ es) = saves_auto es

-- the times of the heartbeats in a list of requests, the latest first
abbrev pub beats : List Request → List ℕ
beats [] = []
beats (post_heartbeat t ∷ rs) = t ∷ beats rs
beats (post_start d ∷ rs) = beats rs
beats (put_preference v ∷ rs) = beats rs
beats (get_preference ∷ rs) = beats rs
beats (get_status ∷ rs) = beats rs
beats (delete_keep_awake ∷ rs) = beats rs

-- Each beat is at least 30 seconds after the one before it, and all are at most `last`.
abbrev pub IsSpaced : ℕ → List ℕ → Type 0
IsSpaced last [] = Unit
IsSpaced last (t ∷ []) = t ≤ last
IsSpaced last (t ∷ u ∷ ts) = (t ≤ last) × (u + 30000 ≤ t) × IsSpaced u (u ∷ ts)

IsSpaced-cons :
    (now last : ℕ) (ts : List ℕ) → last + 30000 ≤ now → IsSpaced last ts → IsSpaced now (now ∷ ts)
IsSpaced-cons now last [] h s = omega arith
IsSpaced-cons now last (t ∷ []) h s = omega arith
IsSpaced-cons now last (t ∷ u ∷ ts) h (le, gap, rest) =
    (omega arith, omega arith, (omega arith, gap, rest))

send_heartbeat-IsSpaced :
    (now : ℕ) (h : Hook)
    → IsSpaced h.last_heartbeat (beats h.sent)
    → IsSpaced (send_heartbeat now h).last_heartbeat (beats (send_heartbeat now h).sent)
unfolding send_heartbeat
send_heartbeat-IsSpaced now h s = elim (Bool-cases (ltb now (h.last_heartbeat + 30000))) [
  | inl early ↦ rw early s
  | inr due ↦ rw due (IsSpaced-cons now h.last_heartbeat (beats h.sent) (ground arith) s)
]

auto_effect-IsSpaced :
    (now : ℕ) (h : Hook)
    → IsSpaced h.last_heartbeat (beats h.sent)
    → IsSpaced (auto_effect now h).last_heartbeat (beats (auto_effect now h).sent)
unfolding auto_effect
auto_effect-IsSpaced now h s = elim (Option-cases h.mode) [
  | inl unset ↦ let e : auto_effect now h ≡ h = ground (arith, unset) in rw e s
  | inr (m, set) ↦ elim (Bool-cases (str_eq m "auto")) [
    | inl auto ↦
        let e : auto_effect now h ≡ send_heartbeat now h = ground (arith, set, auto) in
        rw e (send_heartbeat-IsSpaced now h s)
    | inr other ↦ let e : auto_effect now h ≡ h = ground (arith, set, other) in rw e s
  ]
]

load_preference-IsSpaced :
    (v : Option (Option String)) (h : Hook)
    → IsSpaced h.last_heartbeat (beats h.sent)
    → IsSpaced (load_preference v h).last_heartbeat (beats (load_preference v h).sent)
unfolding load_preference
load_preference-IsSpaced none h s = s
load_preference-IsSpaced (some none) h s = s
load_preference-IsSpaced (some (some v)) h s = s

poll_finish-IsSpaced :
    (t : ℕ) (m : Bool) (r : KeepAwakeStatus) (h : Hook)
    → IsSpaced h.last_heartbeat (beats h.sent)
    → IsSpaced (poll_finish t m r h).last_heartbeat (beats (poll_finish t m r h).sent)
unfolding poll_finish
poll_finish-IsSpaced t m r h s = elim (Bool-cases (m && leb h.last_mutation t)) [
  | inl fresh ↦ rw fresh s
  | inr late ↦ rw late s
]

mode_saved-IsSpaced :
    (mode : String) (now : ℕ) (h : Hook)
    → str_eq mode "auto" ≡ false
    → IsSpaced h.last_heartbeat (beats h.sent)
    → IsSpaced
        (update_mode_saved mode now h).last_heartbeat
        (beats (update_mode_saved mode now h).sent)
unfolding update_mode_saved
mode_saved-IsSpaced mode now h other s = elim (Bool-cases (str_eq mode "")) [
  | inl off ↦ rw (other, off) s
  | inr manual ↦ rw (other, manual) s
]

steps-IsSpaced :
    (es : List Event) (h : Hook)
    → saves_auto es ≡ false
    → IsSpaced h.last_heartbeat (beats h.sent)
    → IsSpaced (run es h).last_heartbeat (beats (run es h).sent)
unfolding run step
steps-IsSpaced [] h q s = s
steps-IsSpaced (preference_loaded v ∷ es) h q s =
    steps-IsSpaced es (load_preference v h) q (load_preference-IsSpaced v h s)
steps-IsSpaced (poll_started ∷ es) h q s = steps-IsSpaced es (poll_begin h) q s
steps-IsSpaced (polled t m r ∷ es) h q s =
    steps-IsSpaced es (poll_finish t m r h) q (poll_finish-IsSpaced t m r h s)
steps-IsSpaced (activity now ∷ es) h q s =
    steps-IsSpaced es (on_activity now h) q
      (send_heartbeat-IsSpaced now (record h { activity_timer = true }) s)
steps-IsSpaced (mode_effect now ∷ es) h q s =
    steps-IsSpaced es (auto_effect now h) q (auto_effect-IsSpaced now h s)
steps-IsSpaced (beat_answered state ∷ es) h q s = steps-IsSpaced es (heartbeat_reply state h) q s
steps-IsSpaced (start_pressed now d ∷ es) h q s = steps-IsSpaced es (start_begin now d h) q s
steps-IsSpaced (started reply ∷ es) h q s = steps-IsSpaced es (start_finish reply h) q s
steps-IsSpaced (stopped now ∷ es) h q s = steps-IsSpaced es (stop now h) q s
steps-IsSpaced (mode_chosen mode ∷ es) h q s = steps-IsSpaced es (update_mode_begin mode h) q s
steps-IsSpaced (mode_saved mode now ∷ es) h q s =
    steps-IsSpaced es (update_mode_saved mode now h) (ground (arith, q))
      (mode_saved-IsSpaced mode now h (ground (arith, q)) s)

-- From the mount of the hook on, whatever happens in whatever order (activity, the effect on the
-- mode, polls, starts, stops, other modes): as long as the automatic mode is not saved, each
-- heartbeat comes at least 30 seconds after the one before it, and none after the time that is kept
-- as that of the last one.
pub run-IsSpaced :
    (es : List Event)
    → saves_auto es ≡ false
    → IsSpaced (run es mount).last_heartbeat (beats (run es mount).sent)
unfolding mount
run-IsSpaced es q = steps-IsSpaced es mount q tt

-- Saving the automatic mode posts a heartbeat and forgets the time of the last one: the next activity,
-- at any time of at least 30 seconds on the clock, posts another one, however short the time between
-- the two; the one after it waits for 30 seconds again.
update_mode_saved-beats :
    (saved_at now later : ℕ) (h : Hook)
    → 30000 ≤ now
    → (beats (on_activity now (update_mode_saved "auto" saved_at h)).sent
        ≡ now ∷ saved_at ∷ beats h.sent)
      × (beats (on_activity later (on_activity now (update_mode_saved "auto" saved_at h))).sent ≡ (
          if ltb later (now + 30000)
          then now ∷ saved_at ∷ beats h.sent
          else later ∷ now ∷ saved_at ∷ beats h.sent))
unfolding update_mode_saved on_activity
update_mode_saved-beats saved_at now later h clock =
    let due : ltb now (0 + 30000) ≡ false = ground (arith, clock) in
    (
      rw due refl,
      elim (Bool-cases (ltb later (now + 30000))) [
        | inl early ↦ rw (due, early) refl
        | inr over ↦ rw (due, over) refl
      ],
    )
