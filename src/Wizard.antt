-- ===== src/Wizard.antt =====
-- web/src/components/setup/SetupWizard.tsx: the setup wizard. `Validation` has the errors of each
-- step, `Changes` the settings whose change destroys data, `Apply` the form and how it is sent,
-- `Phases` the progress of the setup that follows.
pub mod Validation
pub mod Required
pub mod Changes
pub mod Apply
pub mod Guarded
pub mod Revert
pub mod Saved
pub mod Phases
pub mod Completion
mod Examples
