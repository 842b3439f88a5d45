-- ===== src/Media.antt =====
-- src/lib/media: what may be uploaded, and the documents that are attached to courses and lessons.
pub mod Uploads
pub mod Attachments
pub mod Kept
pub mod Sound
pub mod Confirming
