-- ===== src/LockChime/Names.antt =====
-- web/src/pages/LockChime.tsx: the name of a file without its extension.
use Prim.Native.Char.{code}
use Prim.Native.String.{String, [], ◌∷◌}
use sentry_usb.Base.{Bool, true, not, ◌&&◌, if◌then◌else◌, ◌==◌}
use sentry_usb.Base.Text.{is_empty}

-- `name.replace(/\.[^/.]+$/, "")`
abbrev is_plain : String → Bool
is_plain [] = true
is_plain (c ∷ s) = not (code c == 46) && not (code c == 47) && is_plain s

unfoldable pub strip_extension : String → String
strip_extension [] = ""
strip_extension (c ∷ s) =
    let rest = strip_extension s in
    if code c == 46 && not (is_empty s) && is_plain s then "" else c ∷ rest
