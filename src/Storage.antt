-- ===== src/Storage.antt =====
-- src/lib/storage: object keys under each institute's prefix, and the signing of URLs.
pub mod Keys
pub mod Signing
