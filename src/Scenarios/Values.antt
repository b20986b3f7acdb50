-- ===== src/Scenarios/Values.antt =====
-- A service, ports, an ONU and its surroundings.
use g_simulator.Prelude.{true, false, [], ◌∷◌, some, length}
use g_simulator.Go.{received, buffered, panics}
use g_simulator.Oper.{OperState}
use g_simulator.Messages.{Sn}
use g_simulator.Pon.{Resources}
use g_simulator.Service.Machines.Internal.{ServiceState}
use g_simulator.Service.Machines.Eapol.{EapolState}
use g_simulator.Service.Machines.Dhcp.{DhcpState}
use g_simulator.Service.Machines.Igmp.{IgmpState}
use g_simulator.Service.{Service}
use g_simulator.Service.Wellformed.{IsWellformed}
use g_simulator.Uni.{UniPort, PotsPort, Owner}
use g_simulator.Onu.Machine.{OnuState}
use g_simulator.Onu.State.{Onu, World}
use g_simulator.Omci.Packet.{OmciHeader, MessageType}
use g_simulator.Omci.Responses.{Library}

abbrev pub hsia : Service
hsia = record {
  id = 0;
  name = "hsia";
  hw_address = 0x2e ∷ 0x60 ∷ 0 ∷ 0 ∷ 1 ∷ 0 ∷ [];
  c_tag = 900;
  s_tag = 900;
  needs_eapol = true;
  needs_dhcp = true;
  needs_igmp = false;
  needs_pppoe = false;
  technology_profile_id = 64;
  uni_tag_match = 0;
  configure_mac_address = false;
  enable_mac_learning = false;
  us_pon_c_tag_priority = 0;
  us_pon_s_tag_priority = 0;
  ds_pon_c_tag_priority = 0;
  ds_pon_s_tag_priority = 0;
  gem_port = 0;
  internal_state = ServiceState.initialized;
  eapol_state = EapolState.created;
  dhcp_state = DhcpState.created;
  igmp_state = IgmpState.created;
  channel = received [];
  packet_ch = received [];
  stream = some 7;
}

pub hsia-IsWellformed : IsWellformed hsia
hsia-IsWellformed = record { channel_fits = tt; packet_ch_fits = tt }

abbrev pub uni0 : UniPort
uni0 = record {
  id = 0;
  me_id = 1 ∷ 1 ∷ [];
  port_no = 16;
  oper_state = OperState.up;
  services = hsia ∷ [];
  packet_ch = received [];
}

abbrev pub pots0 : PotsPort
pots0 = record { id = 0; me_id = 1 ∷ 1 ∷ []; port_no = 0; oper_state = OperState.down }

abbrev pub sn1 : Sn
sn1 = record {
  address = 1;
  vendor_id = b'E' ∷ b'T' ∷ b'R' ∷ b'I' ∷ [];
  vendor_specific = 0 ∷ 0 ∷ 0 ∷ 1 ∷ [];
}

abbrev pub sn2 : Sn
sn2 = record sn1 { address = 2; vendor_specific = 0 ∷ 0 ∷ 0 ∷ 2 ∷ [] }

abbrev pub owner1 : Owner
owner1 = record { serial_number = sn1; onu_id = 1; openolt_stream = 7 }

abbrev pub onu1 : Onu
onu1 = record {
  id = 1;
  pon_port_id = 0;
  serial_number = sn1;
  internal_state = OnuState.enabled;
  oper_state = OperState.up;
  uni_ports = uni0 ∷ [];
  pots_ports = pots0 ∷ [];
  flows = [];
  flow_ids = [];
  admin_lock_state = 0;
  channel = buffered 2048 [];
  mib_data_sync = 255;
  image_software_expected_sections = 0;
  image_software_received_sections = 0;
  active_image_entity_id = 0;
  committed_image_entity_id = 0;
  standby_image_version = 2 ∷ [];
  active_image_version = 1 ∷ [];
  in_download_image_version = [];
  committed_image_version = 1 ∷ [];
  omci_response_rate = 9;
  omci_msg_counter = 0;
  image_section_data = [];
  tid = 1;
  hp_tid = 0x8000;
  seq_number = 0;
  baseline_commands = 291;
  extended_commands = 12;
  onu_alarms_info = [];
}

abbrev pub pon0 : Resources
pon0 = record {
  allocated_gem_ports = (1024, sn1) ∷ (1025, sn2) ∷ [];
  allocated_onu_ids = (1, sn1) ∷ (2, sn2) ∷ [];
  allocated_alloc_ids = [];
}

abbrev pub world1 : World
world1 = record {
  onu = onu1;
  pon = pon0;
  olt_channel = received [];
  spawned = [];
  indications = [];
  published = [];
}

abbrev pub bare_world : World
bare_world = record world1 { onu = record onu1 { uni_ports = []; pots_ports = [] } }

-- Serialization gives the transaction id, the checksum is the number of bytes.
abbrev pub plain_library : Library
plain_library = record {
  serialize = λ tid r. some (tid ∷ []);
  checksum = λ bytes. length bytes;
  beyond = λ n s. panics;
}

abbrev pub header : OmciHeader
header = record { transaction_id = 5; message_type = MessageType.create; extended = false }
