-- ===== src/Logs/Headers.antt =====
-- web/src/pages/Logs.tsx: above which lines their date is shown.
use sentry_usb.Base.{
  ◌≡◌, refl, Bool, true, false, not, ◌||◌, Option, none, some, List, [], ◌∷◌, String, str_eq,
  if◌then◌else◌, arith, Bool-cases, inl, inr,
}
use sentry_usb.Base.Text.{is_empty}
use sentry_usb.Logs.{ParsedLine, Row, blank, border, line, is_blank, is_border, rows}

-- The date of the last dated line before a place, back to the border of the boot cycle. The lines
-- before it are given from the last to the first.
abbrev pub last_date : List ParsedLine → Option String
last_date [] = none
last_date (p ∷ before) =
    if is_blank p
    then last_date before
    else if is_border p
    then none
    else if is_empty p.date
    then last_date before
    else some p.date

abbrev pub same_date : String → Option String → Bool
same_date date none = false
same_date date (some d) = str_eq date d

-- the row of a line by itself, with the lines before it
abbrev pub row_of : List ParsedLine → ParsedLine → Row
row_of before p =
    if is_blank p
    then blank
    else if is_border p
    then border
    else line (if is_empty p.date || same_date p.date (last_date before) then none else some p.date)
        p

abbrev pub rows_of : List ParsedLine → List ParsedLine → List Row
rows_of before [] = []
rows_of before (p ∷ ps) = row_of before p ∷ rows_of (p ∷ before) ps

-- The two variables of the loop say what the last date is.
record IsTracked (prev_date : String) (in_boot_cycle : Bool) (before : List ParsedLine)
    : Type 0 where
  at :
      (date : String)
      → (not in_boot_cycle || not (str_eq date prev_date)) ≡ not (same_date date (last_date before))

rows-tracked :
    (prev_date : String) (in_boot_cycle : Bool) (before ps : List ParsedLine)
    → IsTracked prev_date in_boot_cycle before
    → rows prev_date in_boot_cycle ps ≡ rows_of before ps
unfolding rows
rows-tracked prev cycle before [] h = refl
rows-tracked prev cycle before (p ∷ ps) h = elim (Bool-cases (is_blank p)) [
  | inl b ↦
      let next : IsTracked prev cycle (p ∷ before) = record { at = λ d. rw b (h.at d) } in
      rw (b, rows-tracked prev cycle (p ∷ before) ps next) refl
  | inr nb ↦ elim (Bool-cases (is_border p)) [
    | inl r ↦
        let next : IsTracked "" false (p ∷ before) = record { at = λ d. rw (nb, r) refl } in
        rw (nb, r, rows-tracked "" false (p ∷ before) ps next) refl
    | inr nr ↦ elim (Bool-cases (is_empty p.date)) [
      | inl e ↦
          let next : IsTracked prev cycle (p ∷ before) = record {
            at = λ d. rw (nb, nr, e) (h.at d);
          } in
          rw (nb, nr, e, rows-tracked prev cycle (p ∷ before) ps next) refl
      | inr ne ↦
          let next : IsTracked p.date true (p ∷ before) = record {
            at = λ d. rw (nb, nr, ne) refl;
          } in
          let shown : (if not cycle || not (str_eq p.date prev) then some p.date else none)
              ≡ (if same_date p.date (last_date before) then none else some p.date) =
            ground (arith, h.at p.date) in
          rw (nb, nr, ne, shown, rows-tracked p.date true (p ∷ before) ps next) refl
    ]
  ]
]

-- The rows that the loop makes are those of the lines by themselves: above a dated line its date is
-- shown exactly if no line before it in its boot cycle has a date, or the last one that has shows
-- another.
pub rows-rows_of : (ps : List ParsedLine) → rows "" false ps ≡ rows_of [] ps
rows-rows_of ps = rows-tracked "" false [] ps (record { at = λ d. refl })
