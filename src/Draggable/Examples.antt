-- ===== src/Draggable/Examples.antt =====
-- web/src/hooks/useDraggable.ts: an overlay dragged past the corner.
use sentry_usb.Base.{◌≡◌, refl, false, some, List, [], ◌∷◌, arith}
use sentry_usb.Base.Int.{pos, negsuc, ◌+ℤ◌, ◌-ℤ◌, minℤ, maxℤ}
use sentry_usb.Draggable.{Geometry, top_left, px, mount, Event, laid_out, down, move, up, step, run}
use sentry_usb.Draggable.Inside.{IsInside, run-IsInside}

abbrev screen : Geometry
screen = record { pw = 800; ph = 600; ew = 200; eh = 100 }

abbrev far_left : List Event
far_left =
    laid_out
    ∷ down false (record { x = px 20; y = px 20 })
    ∷ move (record { x = negsuc 99; y = px 50 })
    ∷ up
    ∷ []

dragged :
    (run top_left (some screen) far_left mount).position ≡ some (record { x = pos 0; y = px 38 })
unfolding run step mount ◌+ℤ◌ ◌-ℤ◌ minℤ maxℤ
dragged = refl

run-IsInside_example : IsInside screen (run top_left (some screen) far_left mount).position
unfolding mount
run-IsInside_example =
    run-IsInside top_left screen far_left mount (record { wide = omega arith; high = omega arith })
      tt
