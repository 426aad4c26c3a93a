-- ===== src/SizeInput/Committed.antt =====
-- web/src/components/setup/steps/StorageStep.tsx, `SizeInput`: what is written to the form.
use sentry_usb.Base.{
  ◌≡◌, refl, Bool, true, false, ◌&&◌, ◌||◌, List, [], ◌∷◌, String, arith, if◌then◌else◌, Bool-cases,
  inl, inr,
}
use sentry_usb.Base.Text.{is_empty, is_digit, all_digits, concat}
use sentry_usb.SizeInput.{
  SizeUnit, gigabytes, megabytes, letter, is_g, is_m, numeric_val, digits_of, Input, sync_unit,
  sync_local, on_change, handle_focus, handle_blur, handle_change, handle_unit_change,
}
use Prim.Native.Char.{Char, code}
use Prim.Native.String.{[], ◌∷◌}

-- digits, and at most one letter of a unit behind them
abbrev pub is_size_tail : String → Bool
is_size_tail [] = true
is_size_tail (c ∷ s) = (is_digit (code c) && is_size_tail s) || ((is_g c || is_m c) && is_empty s)

-- nothing, or a size with a digit in front
abbrev pub is_size_text : String → Bool
is_size_text [] = true
is_size_text (c ∷ s) = is_digit (code c) && is_size_tail s

all_digits-digits_of : (s : String) → all_digits (digits_of s) ≡ true
unfolding digits_of
all_digits-digits_of [] = refl
all_digits-digits_of (c ∷ s) = ground (arith, all_digits-digits_of s)

size_tail-concat :
    (s : String) (u : SizeUnit) → all_digits s ≡ true → is_size_tail (concat s (letter u)) ≡ true
unfolding concat is_digit
size_tail-concat [] gigabytes h = refl
size_tail-concat [] megabytes h = refl
size_tail-concat (c ∷ s) u h = ground (arith, h, size_tail-concat s u)

size_text-concat :
    (s : String) (u : SizeUnit)
    → is_empty s ≡ false
    → all_digits s ≡ true
    → is_size_text (concat s (letter u)) ≡ true
unfolding concat
size_text-concat [] u e h = ground (arith, e)
size_text-concat (c ∷ s) u e h = ground (arith, h, size_tail-concat s u)

digit-no_unit : (c : Char) → is_digit (code c) ≡ true → is_g c || is_m c ≡ false
unfolding is_digit
digit-no_unit c h = ground (arith, h)

all_digits-size_tail : (s : String) → is_size_tail s ≡ true → all_digits (numeric_val s) ≡ true
unfolding numeric_val
all_digits-size_tail [] h = refl
all_digits-size_tail (c ∷ []) h = elim (Bool-cases (is_g c || is_m c)) [
  | inl unit ↦ rw unit refl
  | inr other ↦ rw other (ground (arith, h, other))
]
all_digits-size_tail (c ∷ d ∷ s) h =
    ground (arith, h, digit-no_unit c, all_digits-size_tail (d ∷ s))

all_digits-numeric_val : (s : String) → is_size_text s ≡ true → all_digits (numeric_val s) ≡ true
unfolding numeric_val
all_digits-numeric_val [] h = refl
all_digits-numeric_val (c ∷ s) h = ground (arith, h, all_digits-size_tail (c ∷ s))

-- The form has a size, and the field shows digits.
pub record IsClean (i : Input) : Type 0 where
  pub size : is_size_text i.raw ≡ true
  pub local_digits : all_digits i.local_val ≡ true

on_change-IsClean :
    (value : String) (i : Input)
    → is_size_text value ≡ true
    → all_digits i.local_val ≡ true
    → IsClean (on_change value i)
unfolding on_change sync_unit sync_local
on_change-IsClean value i s d =
    let n = all_digits-numeric_val value s in
    record { size = ground (arith, s); local_digits = ground (arith, d, n) }

pub data Event : Type 0 where
  focus blur : Event
  typed : String → Event
  unit_chosen : SizeUnit → Event

unfoldable pub step : String → Event → Input → Input
unfolding handle_focus handle_blur handle_change handle_unit_change
step default_val focus i = handle_focus i
step default_val blur i = handle_blur default_val i
step default_val (typed v) i = handle_change v i
step default_val (unit_chosen u) i = handle_unit_change u i

unfoldable pub run : String → List Event → Input → Input
run default_val [] i = i
run default_val (e ∷ es) i = run default_val es (step default_val e i)

choose-digits :
    (b : Bool) (s t : String)
    → all_digits s ≡ true
    → all_digits t ≡ true
    → all_digits (if b then s else t) ≡ true
choose-digits true s t h k = h
choose-digits false s t h k = k

step-IsClean :
    (default_val : String) (e : Event) (i : Input)
    → is_size_text default_val ≡ true
    → IsClean i
    → IsClean (step default_val e i)
unfolding step handle_focus handle_blur handle_change handle_unit_change
step-IsClean d focus i h c = record {
  size = c.size;
  local_digits = all_digits-numeric_val i.raw c.size;
}
step-IsClean d (typed v) i h c = record { size = c.size; local_digits = all_digits-digits_of v }
step-IsClean d blur i h c = elim (Bool-cases (is_empty (digits_of i.local_val))) [
  | inl nothing ↦ rw nothing (on_change-IsClean d (record i { focused = false }) h c.local_digits)
  | inr filled ↦ rw filled (
      on_change-IsClean (concat (digits_of i.local_val) (letter i.unit))
        (record i { focused = false })
        (size_text-concat (digits_of i.local_val) i.unit filled (all_digits-digits_of i.local_val))
        c.local_digits)
]
step-IsClean d (unit_chosen u) i h c =
    let current = if i.focused then i.local_val else numeric_val i.raw in
    let digits : all_digits current ≡ true =
      choose-digits i.focused i.local_val (numeric_val i.raw) c.local_digits
        (all_digits-numeric_val i.raw c.size) in
    elim (Bool-cases (is_empty current)) [
      | inl nothing ↦ rw nothing (record { size = c.size; local_digits = c.local_digits })
      | inr filled ↦ rw filled (
          on_change-IsClean (concat current (letter u)) (record i { unit = u })
            (size_text-concat current u filled digits) c.local_digits)
    ]

-- From a form that has a size or nothing, with a default that is one: whatever is focused, typed,
-- chosen and left, the form has a size or nothing (digits, and at most the letter of a unit), and
-- the field shows digits alone.
pub run-IsClean :
    (default_val : String) (es : List Event) (i : Input)
    → is_size_text default_val ≡ true
    → IsClean i
    → IsClean (run default_val es i)
unfolding run
run-IsClean d [] i h c = c
run-IsClean d (e ∷ es) i h c = run-IsClean d es (step d e i) h (step-IsClean d e i h c)
