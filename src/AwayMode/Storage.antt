-- ===== src/AwayMode/Storage.antt =====
-- web/src/hooks/useAwayMode.tsx: the local storage against the shown status.
use sentry_usb.Base.{ℕ, ◌≤◌, ◌<◌, ◌≡◌, refl, true, false, none, List, [], ◌∷◌, arith, ◌⊎◌}
use sentry_usb.AwayMode.{
  idle, active, Hook, Event, polled, enabling, enabled, disabled, step, run, get_stored_away_mode,
}

-- The server answers an `enable` with an active status.
abbrev pub IsGranted : Event → Type 0
IsGranted (enabled iso r) = r.state ≡ active
IsGranted _ = Unit

abbrev pub AllGranted : List Event → Type 0
AllGranted [] = Unit
AllGranted (e ∷ es) = IsGranted e × AllGranted es

-- an idle status leaves nothing in the storage
abbrev pub IsConsistent : Hook → Type 0
IsConsistent h = h.status.state ≡ idle → get_stored_away_mode h ≡ none

-- The events after which the storage is known: a poll that counts, a granted `enable`, a `disable`.
abbrev pub Settles : Event → Hook → Type 0
Settles (polled t m r) h = (m ≡ true) × (h.last_mutation ≤ t)
Settles (enabling now) h = ⊥
Settles (enabled iso r) h = Unit
Settles (disabled now) h = Unit

step-IsConsistent : (e : Event) (h : Hook) → IsGranted e → IsConsistent h → IsConsistent (step e h)
unfolding step get_stored_away_mode
step-IsConsistent (polled t m r) h g c i = ground arith
step-IsConsistent (enabling now) h g c i = c i
step-IsConsistent (enabled iso r) h g c i = cc
step-IsConsistent (disabled now) h g c i = refl

run-IsConsistent :
    (es : List Event) (h : Hook) → AllGranted es → IsConsistent h → IsConsistent (run es h)
unfolding run
run-IsConsistent [] h g c = c
run-IsConsistent (e ∷ es) h (g, gs) c =
    run-IsConsistent es (step e h) gs (step-IsConsistent e h g c)

settled-IsConsistent : (e : Event) (h : Hook) → IsGranted e → Settles e h → IsConsistent (step e h)
unfolding step get_stored_away_mode
settled-IsConsistent (polled t m r) h g s i = ground arith
settled-IsConsistent (enabling now) h g s i = elim s [ ]
settled-IsConsistent (enabled iso r) h g s i = cc
settled-IsConsistent (disabled now) h g s i = refl

-- Whatever an earlier visit left in the storage: once a poll has counted (its effect mounted, and
-- started no earlier than the last change), or away mode was enabled or disabled, then as long
-- as the server answers each `enable` with an active status, an idle status is never shown
-- while the storage still holds an entry.
pub settled_run-IsConsistent :
    (e : Event) (es : List Event) (h : Hook)
    → Settles e h
    → AllGranted (e ∷ es)
    → (run (e ∷ es) h).status.state ≡ idle
    → get_stored_away_mode (run (e ∷ es) h) ≡ none
unfolding run
settled_run-IsConsistent e es h s (g, gs) =
    run-IsConsistent es (step e h) gs (settled-IsConsistent e h g s)

-- The polls that started before the last change, or whose effect is gone, change neither the
-- status nor the storage.
abbrev pub AllStale : ℕ → List Event → Type 0
AllStale since [] = Unit
AllStale since (polled t m r ∷ es) = ((m ≡ false) ⊎ (t < since)) × AllStale since es
AllStale since (_ ∷ es) = ⊥

-- Any number of stale polls, each started before the last change or by an effect that is gone,
-- leave the status, the storage and the time of the last change as they were.
run_stale : (es : List Event) (h : Hook) → AllStale h.last_mutation es → run es h ≡ h
unfolding run step
run_stale [] h s = refl
run_stale (polled t m r ∷ es) h (s, ss) = ground (arith, run_stale es h ss)
run_stale (enabling now ∷ es) h s = elim s [ ]
run_stale (enabled iso r ∷ es) h s = elim s [ ]
run_stale (disabled now ∷ es) h s = elim s [ ]
