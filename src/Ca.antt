-- ===== src/Ca.antt =====
-- The certificates that the CA issues, src/ca/service.rs, and its errors, src/ca/errors.rs.
pub mod Errors
pub mod Sign
mod Tests
