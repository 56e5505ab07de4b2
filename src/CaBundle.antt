-- ===== src/CaBundle.antt =====
-- The CA bundle that agents trust: src/cabundle.
pub mod Canonical
pub mod Build
pub mod Service
mod Tests
