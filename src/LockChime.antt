-- ===== src/LockChime.antt =====
-- web/src/pages/LockChime.tsx: the lock sounds. `Library` has the sounds on the device and their
-- handlers, `Random` the settings of the random mode, `Selection` a file that is chosen for upload,
-- `Community` the shared sounds.
pub mod Library
pub mod Actions
pub mod Random
pub mod Unsent
pub mod Pages
pub mod Shown
pub mod Names
pub mod Selection
pub mod Sizes
mod Examples
