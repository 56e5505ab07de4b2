-- ===== src/Audit.antt =====
-- The tamper-evident audit log of src/audit: model.rs, hash.rs, repository.rs, verifier.rs,
-- service.rs, query.rs and context.rs.
pub mod Model
pub mod Context
pub mod Hash
pub mod Repository
pub mod Verifier
pub mod Search
pub mod Chain
pub mod Tamper
pub mod Toy
mod Tests
