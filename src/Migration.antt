-- ===== src/Migration.antt =====
-- web/src/hooks/useMigrationStatus.tsx: the progress of the migration, from polls and from the
-- WebSocket. Counts are natural numbers, and a percentage is kept as an exact fraction.
pub mod Delays
mod Examples
use sentry_usb.Base.{
  ℕ, ◌*◌, Bool, true, false, Option, none, some, List, [], ◌∷◌, String, ltb, ◌==◌, if◌then◌else◌,
}

pub record Fraction : Type 0 where
  pub num : ℕ
  pub den : ℕ

pub record MigrationStatus : Type 0 where
  pub active : Bool
  pub done : ℕ
  pub total : ℕ
  pub pct : Fraction
  pub error : String
  pub disk_full : Bool

unfoldable pub initial_status : MigrationStatus
initial_status = record {
  active = false;
  done = 0;
  total = 0;
  pct = record { num = 0; den = 1 };
  error = "";
  disk_full = false;
}

-- `computePct`; a count is never below 0.
unfoldable pub compute_pct : ℕ → ℕ → Fraction
compute_pct done total =
    if total == 0
    then record { num = 0; den = 1 }
    else if ltb (100 * total) (100 * done)
    then record { num = 100; den = 1 }
    else record { num = 100 * done; den = total }

-- The status, the status that `poll` captured on the first render, whether the effect is gone,
-- and the delay that the poll timer was set to.
pub record Hook : Type 0 where
  pub status : MigrationStatus
  pub captured : MigrationStatus
  pub cancelled : Bool
  pub poll_timer : Option ℕ

unfoldable pub mount : Hook
unfolding initial_status
mount = record {
  status = initial_status;
  captured = initial_status;
  cancelled = false;
  poll_timer = none;
}

abbrev answered : Option MigrationStatus → MigrationStatus → MigrationStatus
answered none old = old
answered (some new) old = new

-- `poll` once its request has ended (`none`: it failed)
unfoldable pub poll_end : Option MigrationStatus → Hook → Hook
poll_end reply h = if h.cancelled then h else record h {
  status = answered reply h.status;
  poll_timer = some (if h.captured.active then 3000 else 10000);
}

-- a broadcast, in which any field may be missing
pub record Partial : Type 0 where
  pub active : Option Bool
  pub done : Option ℕ
  pub total : Option ℕ
  pub error : Option String
  pub disk_full : Option Bool

abbrev pub or_old {ℓ} : {A : Type ℓ} → Option A → A → A
or_old none old = old
or_old (some new) old = new

unfoldable pub on_broadcast : Partial → Hook → Hook
unfolding compute_pct
on_broadcast d h = if h.cancelled then h else record h {
  status = record {
    active = or_old d.active h.status.active;
    done = or_old d.done h.status.done;
    total = or_old d.total h.status.total;
    pct = compute_pct (or_old d.done h.status.done) (or_old d.total h.status.total);
    error = or_old d.error h.status.error;
    disk_full = or_old d.disk_full h.status.disk_full;
  };
}

-- the clean-up of the effect
unfoldable pub unmount : Hook → Hook
unmount h = record h { cancelled = true; poll_timer = none }
