-- ===== src/Olt.antt =====
-- The OLT (internal/bbsim/devices/olt.go).
pub mod Ids
pub mod Machines
pub mod State
pub mod Flows
pub mod Requests
pub mod Ports
pub mod Lifecycle
pub mod Exclusive
pub mod PonCycle
