-- ===== src/AgentAuth.antt =====
-- Authentication of signed agent requests: src/agentauth.
pub mod Decimal
pub mod Nonce
pub mod Signing
pub mod Middleware
mod Tests
