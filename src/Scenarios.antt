-- ===== src/Scenarios.antt =====
-- The theorems at concrete inputs, and the data for it. The engine is the one of Fsm that reads the
-- tables; serialization gives the transaction id.
pub mod Values
mod Services
mod Ports
mod Onus
mod Flows
mod Omci
mod Downloads
mod Dhcp
mod Olts
mod Creation
mod Messages
mod Eapol
mod Igmp
