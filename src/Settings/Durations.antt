-- ===== src/Settings/Durations.antt =====
-- web/src/pages/Settings.tsx: the durations that `AwayModeControl` asks for.
use sentry_usb.Base.{
  ℕ, Bool, true, ◌&&◌, Option, List, [], ◌∷◌, String, ◌≡◌, refl, arith, all, any, ◌==◌,
}
use sentry_usb.Base.Int.{ℤ, pos, negsuc, minℤ, maxℤ, lebℤ}
use sentry_usb.Settings.AwayControl.{
  AwayControl, mount, presets, duration_min, get_custom_minutes, handle_enable_click, confirm_begin,
  confirm_end, Event, preset, custom, hours_typed, minutes_typed, enable_clicked, confirmed,
  cancelled, ended, step, run,
}

-- at least a minute, and at most a day
abbrev pub in_a_day : ℤ → Bool
in_a_day n = lebℤ (pos 1) n && lebℤ n (pos 1440)

abbrev bounded : AwayControl → Bool
bounded s = in_a_day (pos s.selected_duration) && all in_a_day s.enabled

clamp-in_a_day : (n : ℤ) → in_a_day (minℤ (maxℤ n (pos 1)) (pos 1440)) ≡ true
unfolding minℤ maxℤ
clamp-in_a_day (pos n) = ground arith
clamp-in_a_day (negsuc n) = ground arith

preset-in_a_day : (p : ℕ) → any (λ q. q == p) presets ≡ true → in_a_day (pos p) ≡ true
preset-in_a_day p h = ground (arith, h)

module _ (parse_int : String → Option ℤ) where
  duration_min-in_a_day :
      (s : AwayControl) → bounded s ≡ true → in_a_day (duration_min parse_int s) ≡ true
  unfolding duration_min
  duration_min-in_a_day s h = ground (arith, h, clamp-in_a_day (get_custom_minutes parse_int s))

  step-bounded :
      (e : Event) (s : AwayControl) → bounded s ≡ true → bounded (step parse_int e s) ≡ true
  unfolding step handle_enable_click confirm_begin confirm_end
  step-bounded (preset p) s h = ground (arith, h, preset-in_a_day p)
  step-bounded custom s h = h
  step-bounded (hours_typed t) s h = h
  step-bounded (minutes_typed t) s h = h
  step-bounded enable_clicked s h = ground (arith, h)
  step-bounded confirmed s h = ground (arith, h, duration_min-in_a_day s h)
  step-bounded cancelled s h = h
  step-bounded ended s h = h

  run-bounded :
      (es : List Event) (s : AwayControl) → bounded s ≡ true → bounded (run parse_int es s) ≡ true
  run-bounded [] s h = h
  run-bounded (e ∷ es) s h = run-bounded es (step parse_int e s) (step-bounded e s h)

-- Whatever is typed and clicked, and whatever `parseInt` makes of the fields: every duration that
-- away mode is enabled with is between one minute and a day, and a click to enable is never ignored.
enabled-in_a_day :
    (parse_int : String → Option ℤ) (es : List Event)
    → let s = run parse_int es mount in
      (all in_a_day s.enabled ≡ true) × ((handle_enable_click parse_int s).confirm_open ≡ true)
unfolding mount handle_enable_click
enabled-in_a_day parse_int es =
    let s = run parse_int es mount in
    let h : bounded s ≡ true = run-bounded parse_int es mount refl in
    (ground (arith, h), ground (arith, duration_min-in_a_day parse_int s h))
