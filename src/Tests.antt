-- ===== src/Tests.antt =====
-- Runs on concrete inputs.
mod Data
mod Cache
mod Tenancy
mod Access
mod Entitlements
mod Storage
mod Player
mod Auth
mod Domains
mod Media
mod Signup
mod Provider
mod Sweep
