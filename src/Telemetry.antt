-- ===== src/Telemetry.antt =====
-- web/src/hooks/useTelemetry.ts: the frame that is nearest to a time of the clip. Times are
-- natural numbers, in any one unit.
pub mod Nearest
mod Examples
use sentry_usb.Base.{
  ℕ, zero, suc, ◌+◌, ◌-◌, ◌/◌, Bool, true, false, Option, none, some, List, [], ◌∷◌, ltb, leb,
  if◌then◌else◌, length, get_or,
}

-- `TelemetryFrame`, without the coordinates
pub record Frame : Type 0 where
  pub t : ℕ
  pub speed_mps : ℕ
  pub gear : ℕ
  pub autopilot : ℕ
  pub accel_pos : ℕ

abbrev pub no_frame : Frame
no_frame = record { t = 0; speed_mps = 0; gear = 0; autopilot = 0; accel_pos = 0 }

-- `frames[i]`, read only in range
abbrev pub frame : List Frame → ℕ → Frame
frame frames i = get_or frames i no_frame

-- The binary search, `while (lo < hi - 1)`: one unit of fuel for each round.
unfoldable pub search_from : List Frame → ℕ → ℕ → ℕ → ℕ → ℕ × ℕ
search_from frames seconds zero lo hi = (lo, hi)
search_from frames seconds (suc fuel) lo hi =
    let mid = (lo + hi) / 2 in
    let later = search_from frames seconds fuel mid hi in
    let earlier = search_from frames seconds fuel lo mid in
    if ltb lo (hi - 1)
    then (if leb (frame frames mid).t seconds then later else earlier)
    else (lo, hi)

-- Whichever is closer of the two that the search leaves.
unfoldable pub closer : List Frame → ℕ → ℕ × ℕ → ℕ
closer frames seconds (lo, hi) =
    if leb (seconds - (frame frames lo).t) ((frame frames hi).t - seconds) then lo else hi

-- The index of the frame that is returned, for a list that is not empty.
unfoldable pub nearest_index : List Frame → ℕ → ℕ
unfolding search_from closer
nearest_index frames seconds =
    let last = length frames - 1 in
    let found = closer frames seconds (search_from frames seconds (length frames) 0 last) in
    if leb seconds (frame frames 0).t
    then 0
    else if leb (frame frames last).t seconds
    then last
    else found

-- `frameAtTime`; the telemetry may be absent.
unfoldable pub frame_at_time : Option (List Frame) → ℕ → Option Frame
unfolding nearest_index
frame_at_time none seconds = none
frame_at_time (some []) seconds = none
frame_at_time (some (f ∷ fs)) seconds = some (frame (f ∷ fs) (nearest_index (f ∷ fs) seconds))
