-- ===== src/Auth.antt =====
-- src/lib/auth: how an account comes into being.
pub mod Invitations
