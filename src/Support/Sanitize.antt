-- ===== src/Support/Sanitize.antt =====
-- web/src/pages/Support.tsx: the cleaning of the diagnostics in `handleSend`, on UTF-16 code units.
use sentry_usb.Base.{
  ℕ, zero, suc, Bool, true, false, not, ◌&&◌, ◌||◌, Option, none, some, List, [], ◌∷◌, map, leb,
  ◌==◌, if◌then◌else◌, filter_by,
}

-- the classes `[0-9;]` and `[a-zA-Z]`
abbrev pub is_parameter : ℕ → Bool
is_parameter c = (leb 48 c && leb c 57) || c == 59

abbrev pub is_letter : ℕ → Bool
is_letter c = (leb 65 c && leb c 90) || (leb 97 c && leb c 122)

-- `[0-9;]*[a-zA-Z]`: the length of the match
unfoldable pub match_parameters : List ℕ → Option ℕ
match_parameters [] = none
match_parameters (c ∷ s) =
    let rest = match_parameters s in
    if is_letter c
    then some 1
    else if is_parameter c
    then elim rest [ none ↦ none | some n ↦ some (suc n) ]
    else none

-- the rest of `/\x1b\[[0-9;]*[a-zA-Z]/` behind the escape
unfoldable pub match_escape : List ℕ → Option ℕ
unfolding match_parameters
match_escape [] = none
match_escape (c ∷ s) =
    if c == 91 then elim (match_parameters s) [ none ↦ none | some n ↦ some (suc n) ] else none

-- the units that a match at the escape takes with it
abbrev pub or_zero : Option ℕ → ℕ
or_zero none = 0
or_zero (some n) = n

abbrev pub is_some : Option ℕ → Bool
is_some none = false
is_some (some n) = true

-- `rawDiag.replace(/\x1b\[[0-9;]*[a-zA-Z]/g, "")`; `skip` units still belong to the last match.
unfoldable pub strip_escapes : ℕ → List ℕ → List ℕ
unfolding match_escape
strip_escapes skip [] = []
strip_escapes (suc skip) (c ∷ s) = strip_escapes skip s
strip_escapes zero (c ∷ s) =
    let found = if c == 27 then match_escape s else none in
    let rest = strip_escapes (or_zero found) s in if is_some found then rest else c ∷ rest

-- `/[\uD800-\uDFFF]/g` by U+FFFD
abbrev pub is_surrogate : ℕ → Bool
is_surrogate c = leb 0xd800 c && leb c 0xdfff

unfoldable pub replace_surrogates : List ℕ → List ℕ
replace_surrogates s = map (λ c. if is_surrogate c then 0xfffd else c) s

-- `/[\x00-\x08\x0B\x0C\x0E-\x1F]/g`
abbrev pub is_control : ℕ → Bool
is_control c = leb c 8 || c == 11 || c == 12 || (leb 14 c && leb c 31)

unfoldable pub strip_controls : List ℕ → List ℕ
strip_controls s = filter_by (λ c. not (is_control c)) s

unfoldable pub sanitize : List ℕ → List ℕ
unfolding strip_escapes replace_surrogates strip_controls
sanitize s = strip_controls (replace_surrogates (strip_escapes 0 s))
