-- ===== src/Onu/State.antt =====
-- The state of an ONU, and what its operations act on around it (internal/bbsim/devices/onu.go).
use g_simulator.Prelude.{ℕ, List}
use g_simulator.Omci.Responses.{OnuAlarmInfoMapKey, OnuAlarmInfo}
use g_simulator.Go.{Chan}
use g_simulator.Oper.{OperState}
use g_simulator.Messages.{Sn, Message}
use g_simulator.Pon.{Resources}
use g_simulator.Uni.{UniPort, PotsPort, Owner}
use g_simulator.Onu.Machine.{OnuState}
use g_simulator.Alarms.{AlarmIndication}

-- Onu, less the mutexes, the timers and `DoneChannel`; versions are the bytes of Go strings.
pub record Onu : Type 0 where
  pub id : ℕ
  pub pon_port_id : ℕ
  pub serial_number : Sn
  pub internal_state : OnuState
  pub oper_state : OperState
  pub uni_ports : List UniPort
  pub pots_ports : List PotsPort
  pub flows : List ℕ
  pub flow_ids : List ℕ
  pub admin_lock_state : ℕ
  pub channel : Chan Message
  pub mib_data_sync : ℕ
  pub image_software_expected_sections : ℕ
  pub image_software_received_sections : ℕ
  pub active_image_entity_id : ℕ
  pub committed_image_entity_id : ℕ
  pub standby_image_version : List ℕ
  pub active_image_version : List ℕ
  pub in_download_image_version : List ℕ
  pub committed_image_version : List ℕ
  pub omci_response_rate : ℕ
  pub omci_msg_counter : ℕ
  pub image_section_data : List ℕ
  pub tid : ℕ
  pub hp_tid : ℕ
  pub seq_number : ℕ
  -- The numbers of commands of `MibDb`.
  pub baseline_commands : ℕ
  pub extended_commands : ℕ
  pub onu_alarms_info : List (OnuAlarmInfoMapKey × OnuAlarmInfo)

-- Goroutines that an operation starts.
pub data Task : Type 0 where
  process_onu_messages : Task
  reboot : Task
  re_discover_onu : Task
  -- After DiscoveryRetryDelay, the end of sendOnuDiscIndication.
  retry_discovery : Task
  -- After a second, the bytes of the result are sent.
  send_test_result : List ℕ → ℕ → Task

-- OmciIndication.
pub record OmciIndication : Type 0 where
  pub intf_id : ℕ
  pub onu_id : ℕ
  pub pkt : List ℕ

-- The events that publishOmciEvent publishes.
pub data OmciEvent : Type 0 where
  mib_upload_received mib_upload_done : OmciEvent

-- An ONU with the resources of its PON port, the channel of the OLT, and the goroutines started,
-- the OMCI indications handed to the stream, oldest first, and the events published.
pub record World : Type 0 where
  pub onu : Onu
  pub pon : Resources
  pub olt_channel : Chan AlarmIndication
  pub spawned : List Task
  pub indications : List OmciIndication
  pub published : List OmciEvent

-- What ports read of the ONU; `stream` is `olt.OpenoltStream`.
abbrev pub owner_of : ℕ → Onu → Owner
owner_of stream o = record {
  serial_number = o.serial_number;
  onu_id = o.id;
  openolt_stream = stream;
}

-- `OnuChannel` is made with this capacity.
abbrev pub onu_channel_size : ℕ
onu_channel_size = 2048
