-- ===== src/Messages.antt =====
-- Values that the components exchange: serial numbers, the messages of an ONU's channel
-- (internal/bbsim/types/messageTypes.go), and the alarms for the OLT's channel.
use g_simulator.Omci.Packet.{OmciMessage}
use g_simulator.Prelude.{ℕ, ◌%◌, Bool, List, [], ◌∷◌, u8, ◌==◌}

-- A `*openolt.SerialNumber`: the address is the pointer, which `==` compares in the source.
pub record Sn : Type 0 where
  pub address : ℕ
  pub vendor_id : List ℕ
  pub vendor_specific : List ℕ

-- `sn == onuSn` on pointers.
abbrev pub same_sn : Sn → Sn → Bool
same_sn a b = a.address == b.address

-- NewSN; `address` is where `new` puts the object, `oltid` is not negative.
unfoldable pub new_sn : ℕ → ℕ → ℕ → ℕ → Sn
new_sn address oltid intfid onuid = record {
  address = address;
  vendor_id = b'E' ∷ b'T' ∷ b'R' ∷ b'I' ∷ [];
  vendor_specific = 0 ∷ u8 (oltid % 256) ∷ u8 intfid ∷ u8 onuid ∷ [];
}

-- `bbsim.UP` and `bbsim.DOWN`.
pub data OperStatus : Type 0 where
  up down : OperStatus

-- UniStatusAlarmMessage.
pub record UniStatusAlarm : Type 0 where
  pub onu_sn : Sn
  pub onu_id : ℕ
  pub admin_state : ℕ
  pub entity_id : ℕ
  pub raise_omci_alarm : Bool

-- The fields of an `openolt.Flow` that are read; signed fields hold their bit patterns.
pub record Flow : Type 0 where
  pub flow_id : ℕ
  pub replicate_flow : Bool
  pub pbit_to_gemport : List (ℕ × ℕ)
  pub gemport_id : ℕ
  pub uni_id : ℕ
  pub port_no : ℕ
  pub eth_type : ℕ
  pub o_vid : ℕ
  pub i_vid : ℕ
  pub src_port : ℕ
  pub dst_port : ℕ
  pub o_pbits : ℕ

-- OnuPacketMessage, less what the modelled code does not read; the packet is its bytes.
pub record OnuPacket : Type 0 where
  pub port_no : ℕ
  pub packet : List ℕ
  pub mac_address : List ℕ

-- The messages that the modelled code puts on an ONU's channel.
pub data Message : Type 0 where
  onu_disc_indication : OperStatus → Message
  onu_indication : Sn → ℕ → OperStatus → Message
  uni_status_alarm : UniStatusAlarm → Message
  omci : OmciMessage → Message
  flow_add flow_removed : Flow → Message
  onu_packet_out : OnuPacket → Message
  send_eapol_flow send_dhcp_flow : Message

-- The messages of a service's channel.
pub data ServiceMessage : Type 0 where
  start_eapol start_dhcp : ServiceMessage
  igmp_membership_report_v2 igmp_leave_group igmp_membership_report_v3 : List ℕ → ServiceMessage
