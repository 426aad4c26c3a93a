-- ===== src/Settings/Rates.antt =====
-- web/src/pages/Settings.tsx: the rate that a speed test ends with.
use sentry_usb.Base.{
  ℕ, ◌+◌, ◌*◌, ◌-◌, ◌<◌, ◌≡◌, refl, Bool, true, false, ◌&&◌, Option, none, some, List, [], ◌∷◌, ltb,
  if◌then◌else◌, arith, any, ◌||◌, not,
}
use sentry_usb.Settings.SpeedTest.{
  Rate, SpeedTest, Chunk, Progress, read_chunk, read_all, Ending, complete, broken, Run, run_once,
  run_all, start_test,
}

abbrev pub sum_sizes : List Chunk → ℕ
sum_sizes [] = 0
sum_sizes (c ∷ cs) = c.size + sum_sizes cs

read_all-total :
    (start : ℕ) (cs : List Chunk) (p : Progress)
    → (read_all start cs p).total_bytes ≡ p.total_bytes + sum_sizes cs
unfolding read_chunk
read_all-total start [] p = omega arith
read_all-total start (c ∷ cs) p = ground (arith, read_all-total start cs (read_chunk start c p))

abbrev pub is_broken : Ending → Bool
is_broken (complete now) = false
is_broken broken = true

-- a run that was stopped or failed
abbrev pub ends : Run → Bool
ends r = r.cancelled || is_broken r.ending

-- The first run that ends the test failed, and was not stopped.
abbrev pub fails : List Run → Bool
fails [] = false
fails (r ∷ rs) = if ends r then not r.cancelled else fails rs

threw-broken :
    (r : Run) (mbps : Option Rate) (e : Ending) → r.ending ≡ e → (run_once r mbps).1 ≡ is_broken e
unfolding run_once
threw-broken r mbps (complete now) h = rw h refl
threw-broken r mbps broken h = rw h refl

run_all-stops :
    (rs : List Run) (s : SpeedTest)
    → any ends rs ≡ true
    → s.error ≡ false
    → ((run_all rs s).running ≡ false) × ((run_all rs s).error ≡ fails rs)
unfolding run_all
run_all-stops [] s h n = ground (arith, h)
run_all-stops (r ∷ rs) s h n =
    let t = record s { mbps = (run_once r s.mbps).0 } in
    ground (arith, h, n, threw-broken r s.mbps r.ending refl, run_all-stops rs t)

-- A run that is read to its end in some time and with some bytes shows the rate of all its bytes over
-- that time.
run_once-rate :
    (r : Run) (now : ℕ) (mbps : Option Rate)
    → r.ending ≡ complete now
    → r.start < now
    → 0 < sum_sizes r.chunks
    → run_once r mbps
      ≡ (some (record { bits = sum_sizes r.chunks * 8; millis = now - r.start }), false)
unfolding run_once
run_once-rate r now mbps e t b =
    let begun : Progress = record { total_bytes = 0; last_update = r.start; shown = mbps } in
    let total : (read_all r.start r.chunks begun).total_bytes ≡ sum_sizes r.chunks =
      ground (arith, read_all-total r.start r.chunks begun) in
    let on : (ltb 0 (now - r.start) && ltb 0 (sum_sizes r.chunks)) ≡ true = ground (arith, t, b) in
    rw (e, total, on) refl

-- If one of the runs of a test is stopped or fails, then the test ends, and it shows an error exactly
-- if the first such run failed without being stopped. A run that is read to its end, in some time and
-- with some bytes, ends with the rate of all its bytes over that time.
start_test-stops :
    (rs : List Run) (s : SpeedTest) (r : Run) (now : ℕ)
    → any ends rs ≡ true
    → r.ending ≡ complete now
    → r.start < now
    → 0 < sum_sizes r.chunks
    → ((start_test rs s).running ≡ false)
      × ((start_test rs s).error ≡ fails rs)
      × (run_once r s.mbps
          ≡ (some (record { bits = sum_sizes r.chunks * 8; millis = now - r.start }), false))
unfolding start_test
start_test-stops rs s r now h e t b =
    let started =
      run_all-stops rs (record s { running = true; mbps = none; error = false }) h refl in
    (started.0, started.1, run_once-rate r now s.mbps e t b)
