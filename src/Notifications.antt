-- ===== src/Notifications.antt =====
-- web/src/pages/Notifications.tsx: the notification history with its pages, and the settings.
-- `History` has the state and the handlers, `Paging` the offsets and requests, `Toggles` the
-- settings against the requests with a good answer.
pub mod History
pub mod Paging
pub mod Toggles
mod Examples
