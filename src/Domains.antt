-- ===== src/Domains.antt =====
-- src/lib/domains: an institute's own domains, from the claim to the address that visitors use.
pub mod Rows
pub mod Service
pub mod Provider
pub mod Verified
pub mod Claims
pub mod Claimed
pub mod Slugs
pub mod Primary
pub mod Serving
