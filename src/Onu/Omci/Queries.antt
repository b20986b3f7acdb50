-- ===== src/Onu/Omci/Queries.antt =====
-- OMCI messages that only ask (internal/bbsim/devices/onu.go, handleOmciRequest).
use g_simulator.Prelude.{◌≡◌}
use g_simulator.Omci.Packet.{MessageType}
use g_simulator.Onu.State.{World}
use g_simulator.Onu.Omci.Base.{Handled}

-- The message types that do not configure the ONU.
pub data IsQuery : MessageType → Type 0 where
  asks_mib_upload : IsQuery MessageType.mib_upload
  asks_mib_upload_next : IsQuery MessageType.mib_upload_next
  asks_get : IsQuery MessageType.get
  asks_reboot : IsQuery MessageType.reboot
  asks_test : IsQuery MessageType.test
  asks_synchronize_time : IsQuery MessageType.synchronize_time
  asks_get_all_alarms : IsQuery MessageType.get_all_alarms
  asks_get_all_alarms_next : IsQuery MessageType.get_all_alarms_next
  asks_other : IsQuery MessageType.other_type

-- The resources of the PON port, the channels and the ONU are the same, but for the sequence numbers
-- of its alarms.
abbrev pub IsUntouched : World → Handled × World → Type 0
IsUntouched w (h, v) =
    (v.pon ≡ w.pon)
    × (v.olt_channel ≡ w.olt_channel)
    × (v.onu ≡ record w.onu { onu_alarms_info = v.onu.onu_alarms_info })
