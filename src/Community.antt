-- ===== src/Community.antt =====
-- web/src/pages/Community.tsx, CommunityWraps.tsx and the community tab of LockChime.tsx: what the
-- users share. `Admin` is the entry to the admin mode, `Wraps` and `Chimes` the two libraries.
pub mod Admin
pub mod Entering
pub mod Wraps
pub mod Chimes
pub mod Accepted
mod Examples
