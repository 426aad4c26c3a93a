-- ===== src/Dashboard/Eta.antt =====
-- web/src/pages/Dashboard.tsx: `computeETA` and its window of samples. The quotients are exact; the
-- hours are left as a quotient, of which the page shows one digit.
use sentry_usb.Base.{
  ℕ, ◌+◌, ◌-◌, ◌*◌, ◌/◌, ◌≤◌, ◌||◌, Option, none, some, List, [], ◌∷◌, ◌++◌, if◌then◌else◌, ltb,
  leb, length, arith, length-append,
}

pub record Sample : Type 0 where
  pub time : ℕ
  pub current : ℕ

abbrev pub rate_window : ℕ
rate_window = 6

abbrev shift : List Sample → List Sample
shift [] = []
shift (x ∷ xs) = xs

unfoldable pub push_sample : ℕ → ℕ → List Sample → List Sample
push_sample now current history =
    let pushed = history ++ record { time = now; current = current } ∷ [] in
    let kept = if ltb rate_window (length pushed) then shift pushed else pushed in
    if ltb 0 current then kept else []

pub data Eta : Type 0 where
  seconds minutes : ℕ → Eta
  hours : ℕ → ℕ → Eta

abbrev pub last : Sample → List Sample → Sample
last x [] = x
last x (y ∷ ys) = last y ys

-- `Math.round` of a quotient
abbrev round_div : ℕ → ℕ → ℕ
round_div a b = (2 * a + b) / (2 * b)

-- The seconds that are left are a / b.
unfoldable pub show_eta : ℕ → ℕ → Eta
show_eta a b =
    if ltb a (60 * b)
    then seconds (round_div a b)
    else if ltb a (3600 * b)
    then minutes (round_div a (60 * b))
    else hours a (3600 * b)

-- from the oldest and the newest sample
unfoldable pub eta_between : ℕ → ℕ → Sample → Sample → Option Eta
unfolding show_eta
eta_between current total oldest newest =
    let elapsed = newest.time - oldest.time in
    let done = newest.current - oldest.current in
    if leb done 0 || ltb elapsed 5000
    then none
    else if leb total current
    then none
    else some (show_eta ((total - current) * elapsed) (done * 1000))

unfoldable pub compute_eta : ℕ → ℕ → List Sample → Option Eta
unfolding eta_between
compute_eta current total [] = none
compute_eta current total (x ∷ []) = none
compute_eta current total (x ∷ y ∷ ys) = eta_between current total x (last y ys)

-- the window never has more than six samples
push_sample-bound :
    (now current : ℕ) (history : List Sample)
    → length history ≤ 6
    → length (push_sample now current history) ≤ 6
unfolding push_sample
push_sample-bound now current [] h = ground arith
push_sample-bound now current (x ∷ xs) h = ground (
  arith,
  h,
  length-append (x ∷ xs) (record { time = now; current = current } ∷ []),
  length-append xs (record { time = now; current = current } ∷ []),
)
