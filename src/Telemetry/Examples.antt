-- ===== src/Telemetry/Examples.antt =====
-- web/src/hooks/useTelemetry.ts: four frames.
use sentry_usb.Base.{
  ℕ, zero, suc, ◌<◌, ◌≤◌, ◌≡◌, ◌⊎◌, refl, none, some, List, [], ◌∷◌, arith, length,
}
use sentry_usb.Telemetry.{Frame, no_frame, frame, frame_at_time}
use sentry_usb.Telemetry.Nearest.{IsSorted, dist, frame_at_time-nearest}

abbrev at_t : ℕ → Frame
at_t t = record no_frame { t = t }

abbrev drive : List Frame
drive = at_t 0 ∷ at_t 10 ∷ at_t 25 ∷ at_t 40 ∷ []

nearest : frame_at_time (some drive) 18 ≡ some (at_t 25)
unfolding frame_at_time
nearest = refl

drive-IsSorted : IsSorted drive
drive-IsSorted zero zero h k = omega arith
drive-IsSorted zero (suc j) h k = omega arith
drive-IsSorted (suc i) zero h k = absurd (omega arith)
drive-IsSorted (suc zero) (suc zero) h k = omega arith
drive-IsSorted (suc zero) (suc (suc zero)) h k = omega arith
drive-IsSorted (suc zero) (suc (suc (suc zero))) h k = omega arith
drive-IsSorted (suc (suc i)) (suc zero) h k = absurd (omega arith)
drive-IsSorted (suc (suc zero)) (suc (suc zero)) h k = omega arith
drive-IsSorted (suc (suc zero)) (suc (suc (suc zero))) h k = omega arith
drive-IsSorted (suc (suc (suc i))) (suc (suc zero)) h k = absurd (omega arith)
drive-IsSorted (suc (suc (suc zero))) (suc (suc (suc zero))) h k = omega arith
drive-IsSorted (suc (suc (suc (suc i)))) (suc (suc (suc zero))) h k = absurd (omega arith)
drive-IsSorted i (suc (suc (suc (suc j)))) h k = absurd (omega arith)

frame_at_time-nearest_example :
    ((drive ≡ []) × (frame_at_time (some drive) 18 ≡ none))
    ⊎ ((k : ℕ) × (k < length drive)
        × (frame_at_time (some drive) 18 ≡ some (frame drive k))
        × ((i : ℕ) → i < length drive → dist 18 (frame drive k).t ≤ dist 18 (frame drive i).t))
frame_at_time-nearest_example = frame_at_time-nearest drive 18 drive-IsSorted
