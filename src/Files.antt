-- ===== src/Files.antt =====
-- web/src/pages/Files.tsx: the file browser. `Browser` has the drives, the path and the fetching,
-- `Transfers` the upload progress, `Within` where the path can go.
pub mod Browser
pub mod Transfers
pub mod Sorting
pub mod Paths
pub mod Within
mod Examples
