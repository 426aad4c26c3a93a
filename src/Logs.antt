-- ===== src/Logs.antt =====
-- web/src/pages/Logs.tsx: the lines of a log. `Scan` has the patterns, `Levels` the classification of
-- a message, and this file the parsing and the rows that are shown.
pub mod Scan
pub mod Levels
pub mod Headers
mod Examples
use sentry_usb.Base.{
  ℕ, Bool, true, false, not, ◌&&◌, ◌||◌, Option, none, some, List, [], ◌∷◌, map, String, str_eq,
  if◌then◌else◌,
}
use sentry_usb.Base.Text.{trim, is_empty, concat, has_prefix}
use Scan.{Timestamp, match_timestamp, match_tag}
use Levels.{LogLevel, classify_level}

-- A line, without its time as a number, which nothing reads.
pub record ParsedLine : Type 0 where
  pub date : String
  pub time : String
  pub tag : String
  pub message : String
  pub level : LogLevel
  pub raw : String

-- the parts of a line before its tag
pub record Stamp : Type 0 where
  pub date : String
  pub time : String
  pub rest : String

unfoldable pub stamp_of : Option Timestamp → String → Stamp
unfolding concat
stamp_of none raw = record { date = ""; time = ""; rest = raw }
stamp_of (some t) raw = record {
  date = concat t.month (concat " " t.day);
  time = t.time;
  rest = t.rest;
}

abbrev tag_of : Option (String × String) → String
tag_of none = ""
tag_of (some r) = r.0

abbrev rest_of : Option (String × String) → String → String
rest_of none rest = rest
rest_of (some r) rest = r.1

-- `parseLine`, with the library's lower case
module _ (to_lower_case : String → String) where
  unfoldable pub parse_line : String → ParsedLine
  unfolding stamp_of match_timestamp match_tag classify_level
  parse_line raw =
      let stamp = stamp_of (match_timestamp raw) raw in
      let tagged = match_tag stamp.rest in
      record {
        date = stamp.date;
        time = stamp.time;
        tag = tag_of tagged;
        message = rest_of tagged stamp.rest;
        level = classify_level to_lower_case (rest_of tagged stamp.rest) (tag_of tagged);
        raw = raw;
      }

-- What is shown for a line: an empty row, the border of a boot cycle, or the line, below its date if
-- there is a header.
pub data Row : Type 0 where
  blank border : Row
  line : Option String → ParsedLine → Row

-- `prevDate` and `inBootCycle`
unfoldable pub is_blank : ParsedLine → Bool
unfolding trim
is_blank p = is_empty (trim p.raw)

unfoldable pub is_border : ParsedLine → Bool
unfolding trim has_prefix
is_border p = has_prefix "=====" (trim p.raw)

unfoldable pub rows : String → Bool → List ParsedLine → List Row
unfolding is_blank is_border
rows prev_date in_boot_cycle [] = []
rows prev_date in_boot_cycle (p ∷ ps) =
    let header = if not in_boot_cycle || not (str_eq p.date prev_date) then some p.date else none in
    let unchanged = rows prev_date in_boot_cycle ps in
    let reset = rows "" false ps in
    let dated = rows p.date true ps in
    if is_blank p
    then blank ∷ unchanged
    else if is_border p
    then border ∷ reset
    else if not (is_empty p.date)
    then line header p ∷ dated
    else line none p ∷ unchanged

unfoldable pub formatted_log : (String → String) → List String → List Row
unfolding parse_line rows
formatted_log to_lower_case lines = rows "" false (map (parse_line to_lower_case) lines)
