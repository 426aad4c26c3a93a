-- ===== src/Telemetry/Nearest.antt =====
-- web/src/hooks/useTelemetry.ts: the binary search ends, and finds a nearest frame.
use native.Mathlib.Decide.{dec_le}
use sentry_usb.Base.{
  ℕ, zero, suc, ◌+◌, ◌-◌, ◌≤◌, ◌<◌, ◌≡◌, refl, none, some, List, [], ◌∷◌, arith, length, ltb, leb,
  Bool-cases, inl, inr, ◌/◌, ◌⊎◌,
}
use sentry_usb.Telemetry.{Frame, frame, search_from, closer, nearest_index, frame_at_time}

abbrev pub IsSorted : List Frame → Type 0
IsSorted frames = (i j : ℕ) → i ≤ j → j < length frames → (frame frames i).t ≤ (frame frames j).t

-- the distance of two times
abbrev pub dist : ℕ → ℕ → ℕ
dist a b = (a - b) + (b - a)

module _ (frames : List Frame) (seconds : ℕ) where
  record Between (lo hi : ℕ) : Type 0 where
    ordered : lo < hi
    inside : hi < length frames
    below : (frame frames lo).t ≤ seconds
    above : seconds < (frame frames hi).t

  -- With fuel for the distance of the ends, the search ends with neighbours.
  search_from-Between :
      (fuel lo hi : ℕ)
      → hi ≤ lo + fuel
      → Between lo hi
      → Between (search_from frames seconds fuel lo hi).0 (search_from frames seconds fuel lo hi).1
        × ((search_from frames seconds fuel lo hi).1
            ≡ (search_from frames seconds fuel lo hi).0 + 1)
  unfolding search_from
  search_from-Between zero lo hi e b = absurd (omega (arith, b.ordered))
  search_from-Between (suc fuel) lo hi e b =
      let mid = (lo + hi) / 2 in
      elim (Bool-cases (ltb lo (hi - 1))) [
        | inr done ↦ rw done (b, ground (arith, b.ordered))
        | inl more ↦ elim (Bool-cases (leb (frame frames mid).t seconds)) [
          | inl low ↦
              rw (more, low)
                (search_from-Between fuel mid hi (ground arith) (record {
                  ordered = ground arith;
                  inside = b.inside;
                  below = ground arith;
                  above = b.above;
                }))
          | inr high ↦
              rw (more, high)
                (search_from-Between fuel lo mid (ground arith) (record {
                  ordered = ground arith;
                  inside = ground (arith, b.inside);
                  below = b.below;
                  above = ground arith;
                }))
        ]
      ]

  -- Any two neighbours around the time have the nearest frame among them.
  closer-nearest :
      (lo hi : ℕ)
      → IsSorted frames
      → Between lo hi
      → hi ≡ lo + 1
      → (i : ℕ) → i < length frames
      → dist seconds (frame frames (closer frames seconds (lo, hi))).t
        ≤ dist seconds (frame frames i).t
  unfolding closer
  closer-nearest lo hi s b e i h = elim (dec_le i lo) [
    | yes before ↦
        ground (arith, b.below, b.above, s i lo before (ground (arith, b.ordered, b.inside)))
    | no after ↦ ground (arith, b.below, b.above, s hi i (omega arith) h)
  ]

  closer-inside : (lo hi : ℕ) → Between lo hi → closer frames seconds (lo, hi) < length frames
  unfolding closer
  closer-inside lo hi b = ground (arith, b.ordered, b.inside)

nearest_index-nearest :
    (frames : List Frame) (seconds : ℕ)
    → IsSorted frames
    → 0 < length frames
    → (nearest_index frames seconds < length frames)
      × ((i : ℕ)
          → i < length frames
          → dist seconds (frame frames (nearest_index frames seconds)).t
            ≤ dist seconds (frame frames i).t)
unfolding nearest_index
nearest_index-nearest frames seconds s pos =
    let last = length frames - 1 in
    elim (Bool-cases (leb seconds (frame frames 0).t)) [
      | inl first ↦ rw first (pos, λ i h. ground (arith, s 0 i (omega arith) h))
      | inr inner ↦ elim (Bool-cases (leb (frame frames last).t seconds)) [
        | inl end ↦
            rw (inner, end)
              (omega arith, λ i h. ground (arith, s i last (omega arith) (omega arith)))
        | inr open_end ↦
            let (b, e) =
              search_from-Between frames seconds (length frames) 0 last (omega arith) (record {
                ordered = ground (arith, s 0 last (omega arith) (omega arith));
                inside = omega arith;
                below = ground arith;
                above = ground arith;
              }) in
            rw (inner, open_end)
              (
                closer-inside frames seconds _ _ b,
                λ i h. closer-nearest frames seconds _ _ s b e i h,
              )
      ]
    ]

-- For telemetry whose frames are sorted by time, at any time of the clip: no frame is returned
-- exactly when there is none, and otherwise the frame returned is one of the telemetry's, and
-- no other frame is nearer to that time.
pub frame_at_time-nearest :
    (frames : List Frame) (seconds : ℕ)
    → IsSorted frames
    → ((frames ≡ []) × (frame_at_time (some frames) seconds ≡ none))
      ⊎ ((k : ℕ) × (k < length frames)
          × (frame_at_time (some frames) seconds ≡ some (frame frames k))
          × ((i : ℕ)
              → i < length frames
              → dist seconds (frame frames k).t ≤ dist seconds (frame frames i).t))
unfolding frame_at_time
frame_at_time-nearest [] seconds s = inl (refl, refl)
frame_at_time-nearest (f ∷ fs) seconds s =
    let (inside, nearest) = nearest_index-nearest (f ∷ fs) seconds s (omega arith) in
    inr (nearest_index (f ∷ fs) seconds, inside, refl, nearest)
