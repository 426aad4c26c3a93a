-- ===== src/Draggable/Inside.antt =====
-- web/src/hooks/useDraggable.ts: a dragged element stays within its parent.
use sentry_usb.Base.{
  ℕ, ◌+◌, ◌≤◌, true, false, Option, none, some, List, [], ◌∷◌, arith, Bool-cases, Option-cases, inl,
  inr,
}
use sentry_usb.Base.Int.{ℤ, pos, ◌-ℤ◌, ◌≤ℤ◌, minℤ, maxℤ, -ℤ_parts}
use sentry_usb.Draggable.{
  Geometry, Anchor, top_left, top_right, bottom_center, bottom_left, bottom_right, Position, px,
  Drag, anchor_position, Event, laid_out, down, move, up, step, run,
}

-- The element fits, with the margins that the anchors keep.
pub record IsRoomy (g : Geometry) : Type 0 where
  pub wide : g.ew + 8 ≤ g.pw
  pub high : g.eh + 32 ≤ g.ph

abbrev pub IsWithin : ℕ → ℕ → ℤ → Type 0
IsWithin parent element x = (pos 0 ≤ℤ x) × (x ≤ℤ px parent -ℤ px element)

-- No side of the element is outside of the parent.
abbrev pub IsInside : Geometry → Option Position → Type 0
IsInside g none = Unit
IsInside g (some p) = IsWithin g.pw g.ew p.x × IsWithin g.ph g.eh p.y

clamp-IsWithin :
    (parent element : ℕ) (x : ℤ)
    → element ≤ parent
    → IsWithin parent element (maxℤ (pos 0) (minℤ x (px parent -ℤ px element)))
unfolding maxℤ minℤ
clamp-IsWithin parent element x h = ground (arith, -ℤ_parts (px parent) (px element))

anchor-IsInside : (a : Anchor) (g : Geometry) → IsRoomy g → IsInside g (some (anchor_position a g))
unfolding anchor_position ◌-ℤ◌
anchor-IsInside top_left g r = ground (arith, r.wide, r.high)
anchor-IsInside top_right g r = ground (arith, r.wide, r.high)
anchor-IsInside bottom_center g r = ground (arith, r.wide, r.high)
anchor-IsInside bottom_left g r = ground (arith, r.wide, r.high)
anchor-IsInside bottom_right g r = ground (arith, r.wide, r.high)

step-IsInside :
    (a : Anchor) (g : Geometry) (e : Event) (d : Drag)
    → IsRoomy g
    → IsInside g d.position
    → IsInside g (step a (some g) e d).position
unfolding step
step-IsInside a g laid_out d r h = elim (Option-cases d.position) [
  | inl fresh ↦ rw (fresh, step) (anchor-IsInside a g r)
  | inr (p, placed) ↦ rw (placed, step) (rw placed at h)
]
step-IsInside a g (down true p) d r h = h
step-IsInside a g (down false p) d r h = h
step-IsInside a g (move p) d r h = elim (Bool-cases d.dragging) [
  | inl drag ↦
      rw drag
        (clamp-IsWithin _ _ _ (omega (arith, r.wide)), clamp-IsWithin _ _ _ (omega (arith, r.high)))
  | inr rest ↦ rw rest h
]
step-IsInside a g up d r h = elim (Bool-cases d.dragging) [
  | inl drag ↦ rw drag h
  | inr rest ↦ rw rest h
]

-- However the pointer moves, from the moment that the element is mounted: as long as it fits
-- into its parent with the anchors' margins, it is not placed yet or lies inside the parent.
pub run-IsInside :
    (a : Anchor) (g : Geometry) (es : List Event) (d : Drag)
    → IsRoomy g
    → IsInside g d.position
    → IsInside g (run a (some g) es d).position
unfolding run
run-IsInside a g [] d r h = h
run-IsInside a g (e ∷ es) d r h =
    run-IsInside a g es (step a (some g) e d) r (step-IsInside a g e d r h)
