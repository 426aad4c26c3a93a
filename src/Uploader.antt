-- ===== src/Uploader.antt =====
-- web/src/components/upload/MultiFileUploader.tsx: a list of files that are checked, edited and
-- uploaded. `Files` has the list and the adding, `Uploads` the uploads of one and of all.
pub mod Files
pub mod Uploads
pub mod Limit
pub mod Outcomes
mod Examples
