-- ===== src/Auth.antt =====
-- The authentication of operators: src/auth.
pub mod Provider
pub mod Registry
pub mod Github
pub mod Keycloak
mod Tests
