-- ===== src/Drives/Examples.antt =====
-- web/src/pages/Drives.tsx: two drives, of which the second is selected with a route of four
-- points.
use sentry_usb.Base.{◌≡◌, refl, false, some, [], ◌∷◌, arith}
use sentry_usb.Drives.{Drive, Detail, Drives, add_all, merge_tags, toggle_slider_play}
use sentry_usb.Drives.Slider.{ticks, playing_at, toggle_slider_play-ticks}

merged : merge_tags ("a" ∷ "b" ∷ []) ("b" ∷ "c" ∷ []) ≡ "a" ∷ "b" ∷ "c" ∷ []
unfolding merge_tags add_all
merged = refl

abbrev tagged : Drive
tagged = record { id = 7; start_time = "t"; tags = "work" ∷ [] }

abbrev route : Detail
route = record { points = 4; tags = "work" ∷ [] }

abbrev shown : Drives
shown = record {
  drives = record { id = 3; start_time = "s"; tags = [] } ∷ tagged ∷ [];
  selected_id = some 7;
  selected_drive = some route;
  all_tags = "work" ∷ [];
  slider_idx = 3;
  slider_playing = false;
  processing = false;
  importing = false;
  archiving = false;
  loads = 0;
}

toggle_slider_play-ticks_example :
    (ticks 2 route (toggle_slider_play shown) ≡ playing_at 2 shown)
    × (ticks 4 route (toggle_slider_play shown)
        ≡ record shown { slider_playing = false; slider_idx = 3 })
toggle_slider_play-ticks_example =
    toggle_slider_play-ticks 2 route shown refl refl (omega arith) (omega arith)
