-- ===== src/Settings.antt =====
-- web/src/pages/Settings.tsx: the settings page. `Ble` pairs the car over Bluetooth, `Update` checks
-- for updates and installs one.
pub mod Ble
pub mod Pairing
pub mod Update
pub mod Install
pub mod Installing
pub mod Complete
pub mod Checking
pub mod Controls
pub mod Reboots
pub mod Devices
pub mod SpeedTest
pub mod RawConfig
pub mod AwayControl
pub mod Backup
pub mod Durations
pub mod SavedConfig
pub mod Rates
mod Examples
pub mod Privacy
