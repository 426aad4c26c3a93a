-- ===== src/Logs/Examples.antt =====
-- web/src/pages/Logs.tsx: three lines of a log.
use sentry_usb.Base.{◌≡◌, refl, List, [], ◌∷◌, String, map, false}
use sentry_usb.Base.Text.{is_space, is_digit, concat, has_prefix, includes}
use sentry_usb.Logs.{ParsedLine, parse_line, stamp_of, rows}
use sentry_usb.Logs.Scan.{
  match_timestamp, match_tag, span, some_of, one_of, digit, day_part, name_part, two_digits,
  time_part, spaces, year_part,
}
use sentry_usb.Logs.Levels.{classify_level, mentions, error}
use sentry_usb.Logs.Headers.{rows_of, rows-rows_of}

abbrev failed_line : String
failed_line = "Fri 20 Mar 21:27:22 PDT 2026: [wifi] it failed"

abbrev same : String → String
same text = text

parsed : parse_line same failed_line ≡ record {
  date = "Mar 20";
  time = "21:27:22";
  tag = "wifi";
  message = "it failed";
  level = error;
  raw = failed_line;
}
unfolding parse_line stamp_of match_timestamp match_tag span some_of one_of digit day_part name_part
    two_digits time_part spaces year_part classify_level mentions includes has_prefix is_space
    is_digit concat
parsed = refl

abbrev lines : List ParsedLine
lines = map (parse_line same) (failed_line ∷ "" ∷ "===== boot" ∷ failed_line ∷ failed_line ∷ [])

rows-rows_of_example : rows "" false lines ≡ rows_of [] lines
rows-rows_of_example = rows-rows_of lines
