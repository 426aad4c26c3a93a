-- ===== src/ConfFile.antt =====
-- web/src/components/setup/steps/WelcomeStep.tsx: the import of a configuration file, line by
-- line. A line that the pattern does not match is passed over.
pub mod Quoted
pub mod Masking
mod Examples
use sentry_usb.Base.{
  ℕ, ◌+◌, Bool, true, false, ◌&&◌, ◌||◌, Option, none, some, List, [], ◌∷◌, String, leb, ◌==◌,
  if◌then◌else◌,
}
use sentry_usb.Base.Dict.{put}
use sentry_usb.Base.Text.{is_empty, is_space, trim_start, trim, utf16_length}
use Prim.Native.Char.{Char, code}
use Prim.Native.String.{[], ◌∷◌}

-- `text.split("\n")`: the first line and the others
unfoldable pub split_lines : String → String × List String
split_lines [] = ([], [])
split_lines (c ∷ s) =
    let rest = split_lines s in if code c == 10 then ([], rest.0 ∷ rest.1) else (c ∷ rest.0, rest.1)

-- what stands behind a prefix
unfoldable pub behind : String → String → Option String
behind [] s = some s
behind (c ∷ p) [] = none
behind (c ∷ p) (d ∷ s) = let rest = behind p s in if code c == code d then rest else none

abbrev pub is_key_start : ℕ → Bool
is_key_start c = (leb 65 c && leb c 90) || c == 95 || (leb 97 c && leb c 122)

abbrev pub is_key_char : ℕ → Bool
is_key_char c = is_key_start c || (leb 48 c && leb c 57)

-- the longest run of key characters, and what stands behind
unfoldable pub take_key : String → String × String
take_key [] = ([], [])
take_key (c ∷ s) =
    let rest = take_key s in if is_key_char (code c) then (c ∷ rest.0, rest.1) else ([], c ∷ s)

-- the characters that `.` does not match
abbrev pub ends_line : ℕ → Bool
ends_line c = c == 10 || c == 13 || c == 0x2028 || c == 0x2029

unfoldable pub on_one_line : String → Bool
on_one_line [] = true
on_one_line (c ∷ s) = if ends_line (code c) then false else on_one_line s

-- `=(.*)$`
unfoldable pub match_value : String → Option String
unfolding on_one_line
match_value [] = none
match_value (c ∷ s) = if code c == 61 then (if on_one_line s then some s else none) else none

abbrev pub with_key : String → Option String → Option (String × String)
with_key key none = none
with_key key (some value) = some (key, value)

-- `([A-Za-z_][A-Za-z0-9_]*)=(.*)$`
unfoldable pub match_key : String → Option (String × String)
unfolding take_key match_value
match_key [] = none
match_key (c ∷ s) =
    let key = take_key s in
    if is_key_start (code c) then with_key (c ∷ key.0) (match_value key.1) else none

-- `\s+` and what follows
unfoldable pub match_gap : String → Option (String × String)
unfolding match_key trim_start
match_gap [] = none
match_gap (c ∷ s) = if is_space (code c) then match_key (trim_start s) else none

abbrev pub match_behind : Option String → Option (String × String)
unfolding match_gap
match_behind none = none
match_behind (some s) = match_gap s

-- the pattern `/^\s*export\s+([A-Za-z_][A-Za-z0-9_]*)=(.*)$/`
unfoldable pub match_export : String → Option (String × String)
unfolding behind match_behind trim_start
match_export line = match_behind (behind "export" (trim_start line))

-- the last character, and the text without it
abbrev pub last_is : ℕ → String → Bool
last_is k [] = false
last_is k (c ∷ s) = let rest = last_is k s in if is_empty s then code c == k else rest

abbrev pub drop_last : String → String
drop_last [] = []
drop_last (c ∷ s) = let rest = drop_last s in if is_empty s then [] else c ∷ rest

abbrev pub first_is : ℕ → String → Bool
first_is k [] = false
first_is k (c ∷ s) = code c == k

abbrev pub tail : String → String
tail [] = []
tail (c ∷ s) = s

-- the quotes: `'…'`, `"…"` and `$'…'`
unfoldable pub unquote : String → String
unfolding utf16_length
unquote val =
    if leb 2 (utf16_length val)
    then if (first_is 39 val && last_is 39 val) || (first_is 34 val && last_is 34 val)
      then drop_last (tail val)
      else if first_is 36 val && first_is 39 (tail val) && last_is 39 val
      then drop_last (tail (tail val))
      else val
    else val

abbrev pub put_match : Option (String × String) → List (String × String) → List (String × String)
unfolding unquote trim put
put_match none result = result
put_match (some (key, value)) result = put key (unquote (trim value)) result

unfoldable pub parse_lines : List String → List (String × String) → List (String × String)
unfolding match_export put_match
parse_lines [] result = result
parse_lines (line ∷ lines) result = parse_lines lines (put_match (match_export line) result)

unfoldable pub parse_conf_file : String → List (String × String)
unfolding split_lines parse_lines
parse_conf_file text = parse_lines ((split_lines text).0 ∷ (split_lines text).1) []
