-- ===== src/Viewer/Seeking.antt =====
-- web/src/pages/Viewer.tsx: `seekToGlobal` lands at the time that was asked for.
use sentry_usb.Base.{
  ℕ, suc, ◌+◌, ◌-◌, ◌≤◌, ◌<◌, ◌≡◌, ◌≢◌, refl, some, List, [], ◌∷◌, arith, leb, ◌==◌, length, take,
  get_or, min, Bool-cases, inl, inr, ◌⊎◌,
}
use sentry_usb.Base.Int.{ℤ, minℤ, maxℤ}
use sentry_usb.Viewer.Playback.{
  Player, total, total_duration, clamp_global, find_segment, seek_to_global, sync_videos,
}

-- A place of a row of segments, counted from a first index.
record IsPlace (from remaining : ℕ) (ds : List ℕ) (i offset : ℕ) : Type 0 where
  after : from ≤ i
  inside : i < from + length ds
  fits : offset ≤ get_or ds (i - from) 0
  near_below : total (take (i - from) ds) + offset ≤ remaining
  near_above : remaining ≤ total (take (i - from) ds) + offset + 50

IsPlace-cons :
    (from d remaining : ℕ) (ds : List ℕ) (i offset : ℕ)
    → d ≤ remaining
    → IsPlace (suc from) (remaining - d) ds i offset
    → IsPlace from remaining (d ∷ ds) i offset
IsPlace-cons from d remaining ds i offset h p =
    let e : i - from ≡ suc (i - suc from) = omega (arith, p.after) in
    record {
      after = omega (arith, p.after);
      inside = omega (arith, p.inside);
      fits = rw e p.fits;
      near_below = rw e (omega (arith, p.near_below));
      near_above = rw e (omega (arith, p.near_above));
    }

IsPlace-here :
    (from d remaining : ℕ) (ds : List ℕ)
    → remaining ≤ d + 50
    → IsPlace from remaining (d ∷ ds) from (min remaining d)
IsPlace-here from d remaining ds h =
    let e : from - from ≡ 0 = omega arith in
    record {
      after = omega arith;
      inside = omega arith;
      fits = rw e (omega arith);
      near_below = rw e (omega arith);
      near_above = rw e (omega arith);
    }

find_segment-IsPlace :
    (from remaining d : ℕ) (ds : List ℕ)
    → remaining ≤ total (d ∷ ds)
    → (i : ℕ) × (offset : ℕ) × (find_segment from remaining (d ∷ ds) ≡ some (i, offset))
      × IsPlace from remaining (d ∷ ds) i offset
unfolding find_segment
find_segment-IsPlace from remaining d [] h =
    (from, min remaining d, refl, IsPlace-here from d remaining [] (omega arith))
find_segment-IsPlace from remaining d (e ∷ ds) h = elim (Bool-cases (leb remaining (d + 50))) [
  | inl here ↦
      (from, min remaining d, rw here, IsPlace-here from d remaining (e ∷ ds) (ground arith))
  | inr later ↦
      let (i, offset, found, place) =
        find_segment-IsPlace (suc from) (remaining - d) e ds (ground arith) in
      (
        i,
        offset,
        rw later found,
        IsPlace-cons from d remaining (e ∷ ds) i offset (ground arith) place,
      )
]

-- The time asked for, brought into the clip: 0 for a time before it, its end for one after it.
clamp_global-le : (t : ℤ) (n : ℕ) → clamp_global t n ≤ n
unfolding minℤ maxℤ
clamp_global-le t n = ground arith

IsPlace-of :
    (ds : List ℕ) (remaining : ℕ)
    → ds ≢ []
    → remaining ≤ total ds
    → (i : ℕ) × (offset : ℕ) × (find_segment 0 remaining ds ≡ some (i, offset))
      × IsPlace 0 remaining ds i offset
IsPlace-of [] remaining h le = absurd (h refl)
IsPlace-of (d ∷ ds) remaining h le = find_segment-IsPlace 0 remaining d ds le

seek_to_global-found :
    (t : ℤ) (p : Player) (i offset : ℕ)
    → find_segment 0 (clamp_global t (total_duration p)) p.segment_durations ≡ some (i, offset)
    → ((i ≡ p.current_set_idx) × (seek_to_global t p ≡ sync_videos offset p))
      ⊎ ((i ≢ p.current_set_idx)
          × (seek_to_global t p ≡ record p { pending_seek = some offset; current_set_idx = i }))
unfolding seek_to_global
seek_to_global-found t p i offset found = elim (Bool-cases (i == p.current_set_idx)) [
  | inl same ↦ inl (ground arith, rw (found, seek_to_global) (rw same refl))
  | inr other ↦ inr (ground arith, rw (found, seek_to_global) (rw other refl))
]

-- A seek in a clip that has segments, to any time, before its start and after its end included:
-- there is a segment and an offset within that segment that lie at most 50 ms before the time
-- asked for, as far as that lies in the clip; and the seek either moves the videos of the present
-- segment to the offset, or goes to the other segment and leaves the offset to be applied there.
pub seek_to_global-place :
    (t : ℤ) (p : Player)
    → p.segment_durations ≢ []
    → (i : ℕ) × (offset : ℕ) × (i < length p.segment_durations)
      × (offset ≤ get_or p.segment_durations i 0)
      × (total (take i p.segment_durations) + offset ≤ clamp_global t (total_duration p))
      × (clamp_global t (total_duration p) ≤ total (take i p.segment_durations) + offset + 50)
      × (((i ≡ p.current_set_idx) × (seek_to_global t p ≡ sync_videos offset p))
          ⊎ ((i ≢ p.current_set_idx)
              × (seek_to_global t p
                  ≡ record p { pending_seek = some offset; current_set_idx = i })))
seek_to_global-place t p h =
    let goal_time = clamp_global t (total_duration p) in
    let (i, offset, found, place) =
      IsPlace-of p.segment_durations goal_time h (clamp_global-le t (total_duration p)) in
    let e : i - 0 ≡ i = omega arith in
    (
      i,
      offset,
      omega (arith, place.inside),
      rw e at place.fits,
      rw e at place.near_below,
      rw e at place.near_above,
      seek_to_global-found t p i offset found,
    )
