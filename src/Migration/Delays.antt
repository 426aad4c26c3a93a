-- ===== src/Migration/Delays.antt =====
-- web/src/hooks/useMigrationStatus.tsx: the delays of the polls and the range of the percentage.
use sentry_usb.Base.{
  ℕ, ◌*◌, ◌≤◌, ◌<◌, ◌≡◌, ◌⊎◌, refl, false, Option, none, some, List, [], ◌∷◌, arith, Bool-cases,
  inl, inr,
}
use sentry_usb.Migration.{
  Fraction, MigrationStatus, Hook, Partial, initial_status, compute_pct, mount, poll_end,
  on_broadcast, unmount, or_old,
}

pub data Event : Type 0 where
  polled : Option MigrationStatus → Event
  broadcast : Partial → Event
  unmounted : Event

unfoldable pub run : List Event → Hook → Hook
unfolding poll_end on_broadcast unmount
run [] h = h
run (polled r ∷ es) h = run es (poll_end r h)
run (broadcast d ∷ es) h = run es (on_broadcast d h)
run (unmounted ∷ es) h = run es (unmount h)

-- a timer that is set has the delay of an inactive migration
pub record IsSlow (h : Hook) : Type 0 where
  pub inactive : h.captured.active ≡ false
  pub delay : (h.poll_timer ≡ none) ⊎ (h.poll_timer ≡ some 10000)

run-IsSlow_from : (es : List Event) (h : Hook) → IsSlow h → IsSlow (run es h)
unfolding run poll_end on_broadcast unmount
run-IsSlow_from [] h s = s
run-IsSlow_from (polled r ∷ es) h s = run-IsSlow_from es (poll_end r h) (step s.inactive s.delay)
  where
    step :
        h.captured.active ≡ false
        → (h.poll_timer ≡ none) ⊎ (h.poll_timer ≡ some 10000)
        → IsSlow (poll_end r h)
    step i d = elim (Bool-cases h.cancelled) [
      | inl gone ↦ rw gone (record { inactive = i; delay = d })
      | inr here ↦ rw (here, i) (record { inactive = refl; delay = inr refl })
    ]
run-IsSlow_from (broadcast p ∷ es) h s =
    run-IsSlow_from es (on_broadcast p h) (step s.inactive s.delay)
  where
    step :
        h.captured.active ≡ false
        → (h.poll_timer ≡ none) ⊎ (h.poll_timer ≡ some 10000)
        → IsSlow (on_broadcast p h)
    step i d = elim (Bool-cases h.cancelled) [
      | inl gone ↦ rw gone (record { inactive = i; delay = d })
      | inr here ↦ rw here (record { inactive = i; delay = d })
    ]
run-IsSlow_from (unmounted ∷ es) h s =
    run-IsSlow_from es (unmount h) (record { inactive = s.inactive; delay = inl refl })

mount-IsSlow : IsSlow mount
unfolding mount initial_status
mount-IsSlow = record { inactive = refl; delay = inl refl }

-- The percentage of a fraction is between 0 and 100.
abbrev pub IsPercent : Fraction → Type 0
IsPercent f = (0 < f.den) × (f.num ≤ 100 * f.den)

compute_pct-IsPercent : (done total : ℕ) → IsPercent (compute_pct done total)
unfolding compute_pct
compute_pct-IsPercent done total = ground arith

-- From the first render on, whatever the polls answer and the broadcasts say: each poll that is
-- scheduled has the delay of 10 seconds, also while the migration is shown as active. A broadcast
-- that counts shows a percentage from 0 to 100.
run-IsSlow :
    (es : List Event) (d : Partial)
    → IsSlow (run es mount)
      × ((run es mount).cancelled ≡ false → IsPercent (on_broadcast d (run es mount)).status.pct)
unfolding on_broadcast
run-IsSlow es d =
    let h = run es mount in
    (
      run-IsSlow_from es mount mount-IsSlow,
      λ here.
          rw here
            (compute_pct-IsPercent (or_old d.done h.status.done) (or_old d.total h.status.total)),
    )
