-- ===== src/Tenancy.antt =====
-- src/lib/tenancy: from the Host header to the institute that answers the request.
pub mod Host
pub mod Resolve
