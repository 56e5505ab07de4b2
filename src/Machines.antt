-- ===== src/Machines.antt =====
-- Machine enrollment, heartbeats and administration: src/machines.
pub mod Models
pub mod Token
pub mod Validation
pub mod Store
pub mod Enrollment
pub mod Protocol
pub mod Admin
pub mod Toy
mod Tests
