-- ===== src/Drives/Slider.antt =====
-- web/src/pages/Drives.tsx: the slider plays to the end of the route.
use sentry_usb.Base.{
  ℕ, zero, suc, ◌+◌, ◌-◌, ◌<◌, ◌≡◌, refl, ap, ◌∙◌, true, false, some, arith, leb, ◌==◌,
  if◌then◌else◌, Bool-cases, inl, inr,
}
use sentry_usb.Drives.{Detail, Drives, toggle_slider_play, slider_tick, handle_slider}

-- the ticks of the interval, the last one outermost
unfoldable pub ticks : ℕ → Detail → Drives → Drives
unfolding slider_tick
ticks zero d s = s
ticks (suc n) d s = slider_tick d (ticks n d s)

-- where the slider starts: at its point, or at the first one if it stands at the last
abbrev pub start_point : Detail → Drives → ℕ
start_point d s = if leb (d.points - 1) s.slider_idx then 0 else s.slider_idx

-- the slider playing at a point
abbrev pub playing_at : ℕ → Drives → Drives
playing_at i s = record s { slider_playing = true; slider_idx = i }

slider_tick-on :
    (i : ℕ) (d : Detail) (s : Drives)
    → suc i < d.points
    → slider_tick d (playing_at i s) ≡ playing_at (suc i) s
unfolding slider_tick
slider_tick-on i d s h = let more : leb d.points (suc i) ≡ false = ground (arith, h) in rw more refl

slider_tick-last :
    (i : ℕ) (d : Detail) (s : Drives)
    → suc i ≡ d.points
    → slider_tick d (playing_at i s)
      ≡ record s { slider_playing = false; slider_idx = d.points - 1 }
unfolding slider_tick
slider_tick-last i d s h =
    let last : leb d.points (suc i) ≡ true = ground (arith, h) in rw last refl

ticks-on :
    (n i : ℕ) (d : Detail) (s : Drives)
    → i + n < d.points
    → ticks n d (playing_at i s) ≡ playing_at (i + n) s
unfolding ticks
ticks-on zero i d s h = let e : i + 0 ≡ i = omega arith in rw e refl
ticks-on (suc n) i d s h =
    let e : i + suc n ≡ suc (i + n) = omega arith in
    rw e (
      ap (slider_tick d) (ticks-on n i d s (omega (arith, h)))
      ∙ slider_tick-on (i + n) d s (omega (arith, h)))

toggle_slider_play-start :
    (d : Detail) (s : Drives)
    → s.selected_drive ≡ some d
    → s.slider_playing ≡ false
    → s.slider_idx < d.points
    → toggle_slider_play s ≡ playing_at (start_point d s) s
unfolding toggle_slider_play handle_slider
toggle_slider_play-start d s chosen still inside =
    let some_points : (d.points == 0) ≡ false = ground (arith, inside) in
    elim (Bool-cases (leb (d.points - 1) s.slider_idx)) [
      | inl at_end ↦ simp (still, chosen, some_points, at_end)
      | inr on_way ↦ simp (still, chosen, some_points, on_way)
    ]

start_point-inside :
    (d : Detail) (s : Drives) → s.slider_idx < d.points → start_point d s < d.points
start_point-inside d s inside = ground (arith, inside)

-- Pressing play at a point of a route, when the slider stands still: it starts at its point, or at
-- the first one if it stood at the last; as long as there are points left, `n` ticks bring it
-- exactly `n` points further and it goes on playing; and with as many ticks as there are points
-- from its start on, it stands at the last point and has stopped.
pub toggle_slider_play-ticks :
    (n : ℕ) (d : Detail) (s : Drives)
    → s.selected_drive ≡ some d
    → s.slider_playing ≡ false
    → s.slider_idx < d.points
    → start_point d s + n < d.points
    → (ticks n d (toggle_slider_play s) ≡ playing_at (start_point d s + n) s)
      × (ticks (d.points - start_point d s) d (toggle_slider_play s)
          ≡ record s { slider_playing = false; slider_idx = d.points - 1 })
unfolding ticks
toggle_slider_play-ticks n d s chosen still inside left =
    let from = start_point d s in
    let begun = toggle_slider_play-start d s chosen still inside in
    let before = (d.points - from) - 1 in
    let count : d.points - from ≡ suc before = omega (arith, left) in
    (
      rw begun (ticks-on n from d s left),
      rw (begun, count)
          (ap (slider_tick d) (ticks-on before from d s (omega (arith, left)))
            ∙ slider_tick-last (from + before) d s (omega (arith, left))),
    )
