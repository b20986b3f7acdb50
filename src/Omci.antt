-- ===== src/Omci.antt =====
-- The part of internal/common/omci that the ONU's message handler uses: entity ids, requests as they
-- are parsed, responses as they are composed.
pub mod EntityId
pub mod Alarms
pub mod Packet
pub mod Responses
pub mod Sections
