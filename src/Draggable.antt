-- ===== src/Draggable.antt =====
-- web/src/hooks/useDraggable.ts: an overlay that is dragged within its parent. Sizes are in CSS
-- pixels, and positions in half pixels, so that the centred anchor is exact. The element and its
-- offset parent may be missing.
pub mod Inside
mod Examples
use sentry_usb.Base.{ℕ, ◌*◌, Bool, true, false, Option, none, some, List, [], ◌∷◌, if◌then◌else◌}
use sentry_usb.Base.Int.{ℤ, pos, ◌+ℤ◌, ◌-ℤ◌, minℤ, maxℤ}

pub record Geometry : Type 0 where
  pub pw : ℕ
  pub ph : ℕ
  pub ew : ℕ
  pub eh : ℕ

pub data Anchor : Type 0 where
  top_left top_right bottom_center bottom_left bottom_right : Anchor

pub record Position : Type 0 where
  pub x : ℤ
  pub y : ℤ

-- pixels as half pixels
abbrev pub px : ℕ → ℤ
px n = pos (2 * n)

pub record Drag : Type 0 where
  pub position : Option Position
  pub dragging : Bool
  pub drag_start : Position
  pub pos_start : Position

abbrev pub origin : Position
origin = record { x = pos 0; y = pos 0 }

unfoldable pub mount : Drag
mount = record { position = none; dragging = false; drag_start = origin; pos_start = origin }

unfoldable pub anchor_position : Anchor → Geometry → Position
anchor_position top_right g = record { x = px g.pw -ℤ px g.ew -ℤ px 8; y = px 8 }
anchor_position bottom_center g = record {
  x = pos g.pw -ℤ pos g.ew;
  y = px g.ph -ℤ px g.eh -ℤ px 32;
}
anchor_position bottom_left g = record { x = px 8; y = px g.ph -ℤ px g.eh -ℤ px 8 }
anchor_position bottom_right g = record {
  x = px g.pw -ℤ px g.ew -ℤ px 8;
  y = px g.ph -ℤ px g.eh -ℤ px 8;
}
anchor_position top_left g = record { x = px 8; y = px 8 }

-- The effect that places the element: once, when it has a parent.
unfoldable pub layout : Anchor → Option Geometry → Drag → Drag
unfolding anchor_position
layout anchor none d = d
layout anchor (some g) d = elim d.position [
  | none ↦ record d { position = some (anchor_position anchor g) }
  | some p ↦ d
]

unfoldable pub clamp : Option Geometry → ℤ → ℤ → Position
clamp none x y = record { x = x; y = y }
clamp (some g) x y = record {
  x = maxℤ (pos 0) (minℤ x (px g.pw -ℤ px g.ew));
  y = maxℤ (pos 0) (minℤ y (px g.ph -ℤ px g.eh));
}

abbrev pub or_origin : Option Position → Position
or_origin none = origin
or_origin (some p) = p

-- `interactive`: the pointer is over a button, a link, an input or the map.
unfoldable pub on_pointer_down : Bool → Position → Drag → Drag
on_pointer_down interactive p d =
    if interactive
    then d
    else record d { dragging = true; drag_start = p; pos_start = or_origin d.position }

unfoldable pub on_pointer_move : Option Geometry → Position → Drag → Drag
unfolding clamp
on_pointer_move g p d =
    if d.dragging
    then record d {
      position = some (
          clamp g (d.pos_start.x +ℤ (p.x -ℤ d.drag_start.x))
            (d.pos_start.y +ℤ (p.y -ℤ d.drag_start.y)));
    }
    else d

unfoldable pub on_pointer_up : Drag → Drag
on_pointer_up d = if d.dragging then record d { dragging = false } else d

pub data Event : Type 0 where
  laid_out : Event
  down : Bool → Position → Event
  move : Position → Event
  up : Event

unfoldable pub step : Anchor → Option Geometry → Event → Drag → Drag
unfolding layout on_pointer_down on_pointer_move on_pointer_up
step a g laid_out d = layout a g d
step a g (down interactive p) d = on_pointer_down interactive p d
step a g (move p) d = on_pointer_move g p d
step a g up d = on_pointer_up d

unfoldable pub run : Anchor → Option Geometry → List Event → Drag → Drag
run a g [] d = d
run a g (e ∷ es) d = run a g es (step a g e d)
