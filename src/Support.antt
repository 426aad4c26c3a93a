-- ===== src/Support.antt =====
-- web/src/pages/Support.tsx: the chat with the support. `Chat` has the state, the polls of the
-- messages and the ticket, `Send` the sending of a message, `Sanitize` the cleaning of the
-- diagnostics that are sent with it.
pub mod Chat
pub mod Ids
pub mod Messages
pub mod Sanitize
pub mod Clean
pub mod Send
pub mod Form
pub mod Sending
mod Examples
