-- ===== src/Audit/Chain.antt =====
-- What `verify_chain` of src/audit/verifier.rs accepts, and that the tables which
-- src/audit/repository.rs writes are accepted.
pub mod Links
pub mod Rows
pub mod Append
