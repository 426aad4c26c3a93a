-- ===== src/LockChime/Unsent.antt =====
-- web/src/pages/LockChime.tsx: what the requests of the random mode leave out.
use sentry_usb.Base.{ℕ, ◌≡◌, refl, Bool}
use sentry_usb.Base.Exec.{answered}
use sentry_usb.LockChime.Random.{
  Random, save_begin, save_finish, handle_save_random_config, choose_day, choose_hour,
}

-- The requests of two choices are the same whatever the day and the hour; when the server accepts
-- them, the page shows the chosen day and hour.
choose_time-unsent :
    (day day' hour hour' : ℕ) (enabled : Bool) (s : Random)
    → ((choose_day day (answered enabled) s).sent ≡ (choose_day day' (answered enabled) s).sent)
      × ((choose_hour hour (answered enabled) s).sent
          ≡ (choose_hour hour' (answered enabled) s).sent)
      × ((choose_day day (answered enabled) s).random_cfg.day ≡ day)
      × ((choose_hour hour (answered enabled) s).random_cfg.hour ≡ hour)
unfolding choose_day choose_hour handle_save_random_config save_begin save_finish
choose_time-unsent day day' hour hour' enabled s = (refl, refl, refl, refl)
