-- ===== src/SetupProgress.antt =====
-- web/src/components/setup/SetupProgress.tsx: the progress of the setup, read off its log.
-- `Estimate` has the estimate and the log lines, `Bounds` its range and its growth, `Tracking` the
-- polls and the notice that the log has stopped.
pub mod Estimate
pub mod Bounds
pub mod Tracking
pub mod Stale
mod Examples
