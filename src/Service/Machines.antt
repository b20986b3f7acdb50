-- ===== src/Service/Machines.antt =====
-- The four machines of a service (internal/bbsim/devices/services.go, NewService).
pub mod Internal
pub mod Eapol
pub mod Dhcp
pub mod Igmp
