-- ===== src/Settings/SpeedTest.antt =====
-- web/src/pages/Settings.tsx: `SpeedTestButton`. A rate is kept as bits and milliseconds; the page
-- shows it in Mbit/s with one digit.
use sentry_usb.Base.{
  ℕ, ◌+◌, ◌-◌, ◌*◌, Bool, true, false, ◌&&◌, Option, none, some, List, [], ◌∷◌, leb, ltb,
  if◌then◌else◌,
}

pub record Rate : Type 0 where
  pub bits : ℕ
  pub millis : ℕ

pub record SpeedTest : Type 0 where
  pub running : Bool
  pub mbps : Option Rate
  pub error : Bool

-- A chunk that the reader gives, and the time when it is there.
pub record Chunk : Type 0 where
  pub size : ℕ
  pub now : ℕ

-- `totalBytes` and `lastUpdate`
pub record Progress : Type 0 where
  pub total_bytes : ℕ
  pub last_update : ℕ
  pub shown : Option Rate

unfoldable pub read_chunk : ℕ → Chunk → Progress → Progress
read_chunk start c p =
    let total = p.total_bytes + c.size in
    let rate : Rate = record { bits = total * 8; millis = c.now - start } in
    if leb 250 (c.now - p.last_update)
    then record {
      total_bytes = total;
      last_update = c.now;
      shown = if ltb 0 (c.now - start) then some rate else p.shown;
    }
    else record p { total_bytes = total }

abbrev pub read_all : ℕ → List Chunk → Progress → Progress
read_all start [] p = p
read_all start (c ∷ cs) p = read_all start cs (read_chunk start c p)

-- How a run ends: the body is read to its end at a time, the request or the reader fails, or it is
-- stopped.
pub data Ending : Type 0 where
  complete : ℕ → Ending
  broken : Ending

pub record Run : Type 0 where
  pub start : ℕ
  pub chunks : List Chunk
  pub ending : Ending
  pub cancelled : Bool

-- `runOnce`: what is shown at its end, and whether it threw
unfoldable pub run_once : Run → Option Rate → Option Rate × Bool
unfolding read_chunk
run_once r mbps =
    let begun : Progress = record { total_bytes = 0; last_update = r.start; shown = mbps } in
    let p = read_all r.start r.chunks begun in
    elim r.ending [
      | broken ↦ (p.shown, true)
      | complete now ↦
          let rate : Rate = record { bits = p.total_bytes * 8; millis = now - r.start } in
          (if ltb 0 (now - r.start) && ltb 0 p.total_bytes then some rate else p.shown, false)
    ]

-- The loop of `startTest`, over its runs; `cancelled` is whether the test was stopped by the end of
-- a run. It ends at the first run that was stopped or failed.
unfoldable pub run_all : List Run → SpeedTest → SpeedTest
unfolding run_once
run_all [] s = s
run_all (r ∷ rs) s =
    let result = run_once r s.mbps in
    let t = record s { mbps = result.0 } in
    let on = run_all rs t in
    if r.cancelled
    then record t { running = false }
    else if result.1
    then record t { error = true; running = false }
    else on

unfoldable pub start_test : List Run → SpeedTest → SpeedTest
unfolding run_all
start_test rs s = run_all rs (record s { running = true; mbps = none; error = false })
