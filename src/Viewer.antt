-- ===== src/Viewer.antt =====
-- web/src/pages/Viewer.tsx: the clip viewer. `Playback` has the segments of the selected clip and
-- the seeking, `Library` the lists of clips by category.
pub mod Groups
pub mod Playback
pub mod Seeking
pub mod Library
pub mod Paging
mod Examples
