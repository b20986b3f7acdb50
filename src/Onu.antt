-- ===== src/Onu.antt =====
-- An ONU (internal/bbsim/devices/onu.go): its state and machine, its callbacks, power, flows, counters
-- and OMCI messages, in the children.
pub mod Machine
pub mod State
pub mod Events
pub mod Power
pub mod Release
pub mod PortsDown
pub mod Down
pub mod Reboot
pub mod Omci
pub mod Counters
pub mod KeepsPorts
pub mod Invariant
pub mod SecondShutdown
pub mod Enabling
pub mod Flows
pub mod Messages
