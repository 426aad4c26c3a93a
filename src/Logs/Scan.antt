-- ===== src/Logs/Scan.antt =====
-- web/src/pages/Logs.tsx: the patterns of a time stamp and of a tag. Each part of a pattern ends
-- where the next one cannot start, so the longest match of each part is the one that is taken.
use Prim.Native.Char.{code}
use Prim.Native.String.{String, [], ◌∷◌}
use sentry_usb.Base.{ℕ, Bool, not, ◌&&◌, ◌||◌, Option, none, some, leb, ◌==◌, if◌then◌else◌}
use sentry_usb.Base.Text.{is_space, is_digit, is_empty, concat}

-- what a part takes, and what is left
abbrev pub Part : Type 0
Part = Option (String × String)

abbrev pub is_upper : ℕ → Bool
is_upper c = leb 65 c && leb c 90

abbrev pub is_lower : ℕ → Bool
is_lower c = leb 97 c && leb c 122

abbrev pub is_word : ℕ → Bool
is_word c = is_upper c || is_lower c || (leb 48 c && leb c 57) || c == 95

-- as many characters of a class as there are
unfoldable pub span : (ℕ → Bool) → String → String × String
span p [] = ("", "")
span p (c ∷ s) = let rest = span p s in if p (code c) then (c ∷ rest.0, rest.1) else ("", c ∷ s)

-- at least one character of a class
unfoldable pub some_of : (ℕ → Bool) → String → Part
unfolding span
some_of p s = let r = span p s in if is_empty r.0 then none else some r

-- one character of a class
unfoldable pub one_of : (ℕ → Bool) → String → Part
one_of p [] = none
one_of p (c ∷ s) = if p (code c) then some (c ∷ "", s) else none

-- one part, and then another
abbrev both : String → Part → Part
both a none = none
both a (some r) = some (concat a r.0, r.1)

abbrev continue : Part → (String → Part) → Part
continue none f = none
continue (some r) f = both r.0 (f r.1)

-- one part that is passed over, and then another
abbrev skip : Part → (String → Part) → Part
skip none f = none
skip (some r) f = f r.1

unfoldable pub digit : String → Part
unfolding one_of is_digit
digit s = one_of is_digit s

-- `\d{1,2}`
abbrev maybe_digit : Part → String → Part
maybe_digit none s = some ("", s)
maybe_digit (some r) s = some r

unfoldable pub day_part : String → Part
unfolding digit
day_part s = continue (digit s) (λ t. maybe_digit (digit t) t)

-- `[A-Z][a-z]{2}`
unfoldable pub name_part : String → Part
unfolding one_of
name_part s = continue (one_of is_upper s) (λ t. continue (one_of is_lower t) (one_of is_lower))

unfoldable pub two_digits : String → Part
unfolding digit
two_digits s = continue (digit s) digit

abbrev colon : String → Part
colon s = one_of (λ c. c == 58) s

-- `\d{2}:\d{2}:\d{2}`
unfoldable pub time_part : String → Part
unfolding two_digits one_of
time_part s =
    continue (two_digits s)
      (λ t. continue (colon t) (λ u. continue (two_digits u) (λ v. continue (colon v) two_digits)))

unfoldable pub spaces : String → Part
unfolding some_of is_space
spaces s = some_of is_space s

pub record Timestamp : Type 0 where
  pub day : String
  pub month : String
  pub time : String
  pub year : String
  pub rest : String

-- the end of the pattern, behind the time: the zone, the year and the colon
unfoldable pub year_part : String → Part
unfolding spaces some_of two_digits
year_part s =
    skip (spaces s) (λ t.
      skip (some_of is_word t) (λ u. skip (spaces u) (λ v. continue (two_digits v) two_digits)))

abbrev finish : String → String → String → String → Part → Option Timestamp
finish day month time year none = none
finish day month time year (some r) =
    some
      (record { day = day; month = month; time = time; year = year; rest = (span is_space r.1).1 })

abbrev with_year : String → String → String → Part → Option Timestamp
with_year day month time none = none
with_year day month time (some r) = finish day month time r.0 (colon r.1)

abbrev with_time : String → String → Part → Option Timestamp
with_time day month none = none
with_time day month (some r) = with_year day month r.0 (year_part r.1)

abbrev with_month : String → Part → Option Timestamp
with_month day none = none
with_month day (some r) = with_time day r.0 (skip (spaces r.1) time_part)

abbrev with_day : Part → Option Timestamp
with_day none = none
with_day (some r) = with_month r.0 (skip (spaces r.1) name_part)

-- `rest.match(TIMESTAMP_RE)`
unfoldable pub match_timestamp : String → Option Timestamp
unfolding name_part spaces day_part time_part year_part one_of span is_space
match_timestamp s = with_day (skip (name_part s) (λ t. skip (spaces t) day_part))

-- `rest.match(TAG_RE)`: the tag, and what is left
abbrev tag_end : String → Part → Part
tag_end tag none = none
tag_end tag (some r) = some (tag, (span is_space r.1).1)

abbrev tag_body : Part → Part
tag_body none = none
tag_body (some r) = tag_end r.0 (one_of (λ c. c == 93) r.1)

unfoldable pub match_tag : String → Part
unfolding one_of some_of span is_space
match_tag s = tag_body (skip (one_of (λ c. c == 91) s) (some_of (λ c. not (c == 93))))
