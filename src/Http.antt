-- ===== src/Http.antt =====
-- The HTTP handlers of src/routes that compose the services.
pub mod Errors
pub mod Handler
pub mod Identity
pub mod Issue
pub mod MachineQuery
pub mod AdminMachines
pub mod Agent
pub mod Toy
mod Tests
