-- ===== src/Entitlements.antt =====
-- src/lib/entitlements: granting and taking away access by hand.
pub mod Grants
