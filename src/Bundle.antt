-- ===== src/Bundle.antt =====
-- The distribution of signed CA bundles: src/bundle.
pub mod Models
pub mod Canonical
pub mod Signer
pub mod Seed
pub mod Service
pub mod Fleet
pub mod Jitter
pub mod Retirement
mod Tests
