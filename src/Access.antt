-- ===== src/Access.antt =====
-- src/lib/access: who may read a lesson, who may change a course, and which signed URLs are issued.
pub mod Rows
pub mod Isolation
pub mod Media
pub mod Documents
pub mod Predicate
pub mod Authoring
