-- ===== src/SizeInput.antt =====
-- web/src/components/setup/steps/StorageStep.tsx, `SizeInput`: a field for a size with a unit. The
-- value is kept in the form (`raw`), and written to it on blur and on a change of the unit.
pub mod Committed
mod Examples
use sentry_usb.Base.{ℕ, Bool, true, false, not, ◌&&◌, ◌||◌, String, str_eq, ◌==◌, if◌then◌else◌}
use sentry_usb.Base.Text.{is_empty, is_digit, concat}
use Prim.Native.Char.{Char, code}
use Prim.Native.String.{[], ◌∷◌}

pub data SizeUnit : Type 0 where
  gigabytes megabytes : SizeUnit

abbrev pub letter : SizeUnit → String
letter gigabytes = "G"
letter megabytes = "M"

abbrev pub is_g : Char → Bool
is_g c = code c == 103 || code c == 71

abbrev pub is_m : Char → Bool
is_m c = code c == 109 || code c == 77

-- `raw.replace(/[gGmM]/g, "")`
unfoldable pub numeric_val : String → String
numeric_val [] = []
numeric_val (c ∷ s) = let rest = numeric_val s in if is_g c || is_m c then rest else c ∷ rest

-- `v.replace(/[^0-9]/g, "")`
unfoldable pub digits_of : String → String
digits_of [] = []
digits_of (c ∷ s) = let rest = digits_of s in if is_digit (code c) then c ∷ rest else rest

-- the tests `/[mM]$/` and `/[gG]$/`
unfoldable pub ends_with : (Char → Bool) → String → Bool
ends_with p [] = false
ends_with p (c ∷ s) = let rest = ends_with p s in if is_empty s then p c else rest

pub record Input : Type 0 where
  pub raw : String
  pub unit : SizeUnit
  pub local_val : String
  pub focused : Bool

unfoldable pub mount : String → Input
unfolding ends_with numeric_val
mount raw = record {
  raw = raw;
  unit = if ends_with is_m raw then megabytes else gigabytes;
  local_val = numeric_val raw;
  focused = false;
}

-- the two effects, after a change of the value in the form
unfoldable pub sync_unit : Input → Input
unfolding ends_with
sync_unit i =
    if ends_with is_m i.raw
    then record i { unit = megabytes }
    else if ends_with is_g i.raw
    then record i { unit = gigabytes }
    else i

unfoldable pub sync_local : Input → Input
unfolding numeric_val
sync_local i = if i.focused then i else record i { local_val = numeric_val i.raw }

-- `onChange(field, value)` with the render that follows: the effect on the value runs if it is another
-- one. The other effect changes nothing where it does not run.
unfoldable pub on_change : String → Input → Input
unfolding sync_unit sync_local
on_change value i =
    let changed = record i { raw = value } in
    sync_local (if str_eq value i.raw then changed else sync_unit changed)

unfoldable pub handle_focus : Input → Input
unfolding numeric_val
handle_focus i = record i { focused = true; local_val = numeric_val i.raw }

-- An empty field takes the default, which may be empty as well.
unfoldable pub handle_blur : String → Input → Input
unfolding digits_of on_change
handle_blur default_val i =
    let cleaned = digits_of i.local_val in
    on_change (if is_empty cleaned then default_val else concat cleaned (letter i.unit))
      (record i { focused = false })

unfoldable pub handle_change : String → Input → Input
unfolding digits_of
handle_change v i = record i { local_val = digits_of v }

unfoldable pub handle_unit_change : SizeUnit → Input → Input
unfolding on_change numeric_val
handle_unit_change new_unit i =
    let current_num = if i.focused then i.local_val else numeric_val i.raw in
    let chosen = record i { unit = new_unit } in
    if is_empty current_num then chosen else on_change (concat current_num (letter new_unit)) chosen
