-- ===== src/SetupProgress/Stale.antt =====
-- web/src/components/setup/SetupProgress.tsx: when the log counts as stopped.
use sentry_usb.Base.{
  ℕ, ◌+◌, ◌<◌, ◌≡◌, refl, true, false, Option, none, some, List, [], ◌∷◌, String, arith, ltb,
  if◌then◌else◌, length,
}
use sentry_usb.SetupProgress.Tracking.{Tracker, mount, lines_of, poll_reply, on_lines, check_stale}

pub data Event : Type 0 where
  -- a reply of a poll, with the render that follows it
  polled : Option String → Event
  checked : Event

unfoldable pub step : ℕ → Event → Tracker → Tracker
unfolding poll_reply on_lines check_stale
step now (polled reply) t = on_lines now (poll_reply false reply t)
step now checked t = check_stale now t

-- The events with the time that passes before each, from a time on.
unfoldable pub run : ℕ → List (ℕ × Event) → Tracker → Tracker
run clock [] t = t
run clock ((wait, e) ∷ es) t = run (clock + wait) es (step (clock + wait) e t)

abbrev pub end_time : ℕ → List (ℕ × Event) → ℕ
end_time clock [] = clock
end_time clock ((wait, e) ∷ es) = end_time (clock + wait) es

-- When the log had grown last, read off the events: `n` is how many lines it had.
abbrev pub lines_after : ℕ → Option String → ℕ
unfolding lines_of
lines_after n none = n
lines_after n (some text) = length (lines_of text)

unfoldable pub last_growth : ℕ → ℕ → ℕ → List (ℕ × Event) → ℕ
unfolding lines_after
last_growth clock n last [] = last
last_growth clock n last ((wait, checked) ∷ es) = last_growth (clock + wait) n last es
last_growth clock n last ((wait, polled reply) ∷ es) =
    let m = lines_after n reply in
    last_growth (clock + wait) m (if ltb n m then clock + wait else last) es

-- The tracker agrees with the events up to now.
record IsTracked (clock n last : ℕ) (t : Tracker) : Type 0 where
  counted : t.prev_len ≡ n
  shown : length t.log_lines ≡ n
  changed : t.last_change ≡ last
  quiet : t.stale ≡ true → last + 300000 < clock

-- The effect on lines, when there are `m` of them.
on_lines-IsTracked :
    (clock n last wait : ℕ) (t : Tracker) (m : ℕ)
    → t.prev_len ≡ n
    → t.last_change ≡ last
    → (t.stale ≡ true → last + 300000 < clock)
    → length t.log_lines ≡ m
    → IsTracked
        (clock + wait)
        m
        (if ltb n m then clock + wait else last)
        (on_lines (clock + wait) t)
unfolding on_lines
on_lines-IsTracked clock n last wait t m c l q e = record {
  counted = ground (arith, c, e);
  shown = ground (arith, c, e);
  changed = ground (arith, c, l, e);
  quiet = ground (arith, c, l, e, q);
}

check-IsTracked :
    (clock n last wait : ℕ) (t : Tracker)
    → IsTracked clock n last t
    → IsTracked (clock + wait) n last (check_stale (clock + wait) t)
unfolding check_stale
check-IsTracked clock n last wait t i =
    let c = i.counted in
    let s = i.shown in
    let l = i.changed in
    let q = i.quiet in
    record {
      counted = ground (arith, c);
      shown = ground (arith, s);
      changed = ground (arith, l);
      quiet = ground (arith, c, s, l, q);
    }

step-IsTracked :
    (clock n last wait : ℕ) (reply : Option String) (t : Tracker)
    → IsTracked clock n last t
    → IsTracked
        (clock + wait)
        (lines_after n reply)
        (if ltb n (lines_after n reply) then clock + wait else last)
        (step (clock + wait) (polled reply) t)
unfolding step poll_reply lines_after
step-IsTracked clock n last wait none t i =
    on_lines-IsTracked clock n last wait t n i.counted i.changed i.quiet i.shown
step-IsTracked clock n last wait (some text) t i =
    on_lines-IsTracked clock n last wait (poll_reply false (some text) t) (length (lines_of text))
      i.counted i.changed i.quiet refl

mount-IsTracked : (start : ℕ) → IsTracked start 0 start (mount start)
unfolding mount
mount-IsTracked start = record {
  counted = refl;
  shown = refl;
  changed = refl;
  quiet = λ e. ground (arith, e);
}

run-IsTracked :
    (clock n last : ℕ) (es : List (ℕ × Event)) (t : Tracker)
    → IsTracked clock n last t
    → (k : ℕ) × IsTracked (end_time clock es) k (last_growth clock n last es) (run clock es t)
unfolding run last_growth step
run-IsTracked clock n last [] t i = (n, i)
run-IsTracked clock n last ((wait, checked) ∷ es) t i =
    run-IsTracked (clock + wait) n last es (check_stale (clock + wait) t)
      (check-IsTracked clock n last wait t i)
run-IsTracked clock n last ((wait, polled reply) ∷ es) t i =
    let m = lines_after n reply in
    run-IsTracked (clock + wait) m (if ltb n m then clock + wait else last) es
      (step (clock + wait) (polled reply) t) (step-IsTracked clock n last wait reply t i)

-- Whatever polls and checks come after the start: the notice that the log has stopped is shown
-- only if the log last grew more than five minutes ago (or, if it never did, the start is so long
-- ago), and at a check of a log with lines that last grew more than five minutes ago it is shown.
pub run-stale :
    (start : ℕ) (es : List (ℕ × Event))
    → ((run start es (mount start)).stale ≡ true
        → last_growth start 0 start es + 300000 < end_time start es)
      × ((now : ℕ)
          → last_growth start 0 start es + 300000 < now
          → 0 < length (run start es (mount start)).log_lines
          → (check_stale now (run start es (mount start))).stale ≡ true)
unfolding check_stale
run-stale start es =
    let t = run start es (mount start) in
    let tracked = run-IsTracked start 0 start es (mount start) (mount-IsTracked start) in
    let changed = tracked.1.changed in
    (tracked.1.quiet, λ now old lines. ground (arith, changed, old, lines))
