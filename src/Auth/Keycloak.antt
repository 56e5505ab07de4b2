-- ===== src/Auth/Keycloak.antt =====
-- The Keycloak provider: src/auth/keycloak.
pub mod Config
pub mod Claims
pub mod Verify
pub mod Oidc
pub mod Device
pub mod Provider
mod Tests
