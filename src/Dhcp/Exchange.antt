-- ===== src/Dhcp/Exchange.antt =====
-- The DHCP exchange of a service (internal/bbsim/responders/dhcp/dhcp.go, as HandlePackets and
-- HandleChannel of internal/bbsim/devices/services.go call it).
pub mod Order
use text.Mathlib.Text.{◌==◌ as str_eq}
use g_simulator.Prelude.{
  ℕ, Bool, true, false, ◌&&◌, List, [], ◌∷◌, ◌++◌, Option, none, some, if◌then◌else◌, u8,
}
use g_simulator.Go.{Result, ok, ◌>>=◌}
use g_simulator.Fsm.{Engine}
use g_simulator.Omci.EntityId.{equals}
use g_simulator.Dhcp.{mac_address_to_tx_id}
use g_simulator.Service.Machines.Dhcp.{DhcpState, DhcpTx}
use g_simulator.Service.{Service, fire_dhcp, drop_error, fttb_dpu_mgmt_service_name}

-- The options that the code reads or writes.
pub data DhcpOpt : Type 0 where
  message_type hostname params_request client_id server_id request_ip relay_agent other_opt :
      DhcpOpt

pub record DhcpOption : Type 0 where
  pub kind : DhcpOpt
  pub bytes : List ℕ

-- The DHCP layer of a packet; its operation is a reply or a request.
pub record DhcpLayer : Type 0 where
  pub is_reply : Bool
  pub xid : ℕ
  pub client_hw_addr : List ℕ
  pub your_client_ip : List ℕ
  pub options : List DhcpOption

-- The types that GetDhcpMessageType knows.
pub data DhcpMsgType : Type 0 where
  discover offer request ack release : DhcpMsgType

-- The comparison of an option's data with the byte of each type.
abbrev msg_type_of : List ℕ → Option DhcpMsgType
msg_type_of bytes =
    if equals bytes (1 ∷ [])
    then some discover
    else if equals bytes (2 ∷ [])
    then some offer
    else if equals bytes (3 ∷ [])
    then some request
    else if equals bytes (5 ∷ [])
    then some ack
    else if equals bytes (7 ∷ [])
    then some release
    else none

-- GetDhcpMessageType: the first option of that kind counts; `none` is the error.
unfoldable pub get_dhcp_message_type : List DhcpOption → Option DhcpMsgType
get_dhcp_message_type [] = none
get_dhcp_message_type (o ∷ rest) = elim o.kind [
  | message_type ↦ msg_type_of o.bytes
  | _ ↦ get_dhcp_message_type rest
]

-- defaultParamsRequestList: subnet mask, broadcast address, time offset, router and so on.
abbrev default_params_request_list : List ℕ
default_params_request_list = 1 ∷ 28 ∷ 2 ∷ 3 ∷ 15 ∷ 6 ∷ 119 ∷ 12 ∷ 44 ∷ 47 ∷ 26 ∷ 121 ∷ 42 ∷ []

-- Where the service is: the arguments of HandleNextPacket besides the service.
pub record Place : Type 0 where
  pub intf_id : ℕ
  pub onu_id : ℕ
  pub uni_id : ℕ
  pub port_no : ℕ

-- The `openolt.PacketIndication` of a DHCP packet, with the tag and priority pushed on it.
pub record DhcpPacketIn : Type 0 where
  pub tag : ℕ
  pub pbit : ℕ
  pub layer : DhcpLayer
  pub intf_id : ℕ
  pub gemport_id : ℕ
  pub port_no : ℕ
  pub onu_id : ℕ
  pub uni_id : ℕ

-- A service and the DHCP packets that it has sent, oldest first.
pub record Exchange : Type 0 where
  pub service : Service
  pub sent : List DhcpPacketIn

-- createDefaultDHCPReq with these options.
abbrev pub create_default_dhcp_req : List ℕ → List DhcpOption → DhcpLayer
create_default_dhcp_req mac options = record {
  is_reply = false;
  xid = mac_address_to_tx_id mac;
  client_hw_addr = mac;
  your_client_ip = [];
  options = options;
}

abbrev pub option : DhcpOpt → List ℕ → DhcpOption
option kind bytes = record { kind = kind; bytes = bytes }

-- `host` is `fmt.Sprintf` of the host name; `packs`: does the serialization of gopacket succeed;
-- `delivers`: does `stream.Send` return without error during the call?
module _ (engine : Engine) (host : ℕ → ℕ → ℕ → List ℕ) (place : Place) (packs delivers : Bool) where
  -- createDefaultOpts.
  unfoldable pub create_default_opts : ℕ → List DhcpOption
  create_default_opts gem_port =
      option hostname (host gem_port place.intf_id place.onu_id)
      ∷ option params_request default_params_request_list
      ∷ []

  -- createDHCPDisc.
  unfoldable pub create_dhcp_disc : Service → DhcpLayer
  unfolding create_default_opts
  create_dhcp_disc s = create_default_dhcp_req s.hw_address (
      (option message_type (1 ∷ []) ∷ create_default_opts s.gem_port)
      ++ option client_id (1 ∷ s.hw_address) ∷ [])

  -- createDHCPReq.
  unfoldable pub create_dhcp_req : List ℕ → Service → DhcpLayer
  unfolding create_default_opts
  create_dhcp_req offered_ip s = create_default_dhcp_req s.hw_address (
      create_default_opts s.gem_port
      ++ option message_type (3 ∷ [])
        ∷ option server_id (182 ∷ 21 ∷ 0 ∷ 128 ∷ [])
        ∷ option client_id (
            0xcd
            ∷ 0x28
            ∷ 0xcb
            ∷ 0xcc
            ∷ 0
            ∷ 1
            ∷ 0
            ∷ 1
            ∷ 0x23
            ∷ 0xed
            ∷ 0x11
            ∷ 0xec
            ∷ 0x4e
            ∷ 0xfc
            ∷ 0xcd
            ∷ 0x28
            ∷ u8 place.intf_id
            ∷ u8 place.onu_id
            ∷ [])
        ∷ option request_ip offered_ip
        ∷ [])

  -- `onuStateMachine.Event(tx)`, whose error is only logged.
  unfoldable pub fire_dhcp_machine : DhcpTx → Exchange → Result Exchange
  fire_dhcp_machine tx x = do
    s ← drop_error (fire_dhcp engine tx x.service)
    ok (record x { service = s })

  -- sendDHCPPktIn of a packet that serializeDHCPPacket has tagged with the tag of the service.
  unfoldable pub send_dhcp_pkt_in : DhcpLayer → Exchange → Exchange
  send_dhcp_pkt_in layer x =
      let s = x.service in
      let mgmt = str_eq s.name fttb_dpu_mgmt_service_name in
      record x {
        sent =
            x.sent
            ++ record {
              tag = if mgmt then s.s_tag else s.c_tag;
              pbit = if mgmt then s.us_pon_s_tag_priority else s.us_pon_c_tag_priority;
              layer = layer;
              intf_id = place.intf_id;
              gemport_id = s.gem_port;
              port_no = place.port_no;
              onu_id = place.onu_id;
              uni_id = place.uni_id;
            }
              ∷ [];
      }

  -- A packet that cannot be sent: the function that sends and its caller both fail the machine.
  unfoldable pub send_or_fail :
      DhcpLayer → (Exchange → Result Exchange) → Exchange → Result Exchange
  unfolding send_dhcp_pkt_in fire_dhcp_machine
  send_or_fail layer f x =
      if packs && delivers
      then f (send_dhcp_pkt_in layer x)
      else fire_dhcp_machine DhcpTx.fail_dhcp x >>= fire_dhcp_machine DhcpTx.fail_dhcp

  -- SendDHCPDiscovery, once the packet is sent: an error goes back to HandleChannel.
  unfoldable pub note_discovery : Exchange → Result Exchange
  unfolding fire_dhcp_machine
  note_discovery x = do
    (err, s) ← fire_dhcp engine DhcpTx.discovery_sent x.service
    let y : Exchange = record x { service = s }
    elim err [ none ↦ ok y | some _ ↦ fire_dhcp_machine DhcpTx.fail_dhcp y ]

  -- The case StartDHCP of HandleChannel, with handleDHCPStart and SendDHCPDiscovery.
  unfoldable pub handle_dhcp_start : Exchange → Result Exchange
  unfolding create_dhcp_disc send_or_fail note_discovery
  handle_dhcp_start x = send_or_fail (create_dhcp_disc x.service) note_discovery x

  -- The branches of HandleNextPacket on the type of a reply, with sendDHCPRequest.
  unfoldable pub handle_reply : DhcpMsgType → DhcpLayer → Exchange → Result Exchange
  unfolding create_dhcp_req send_or_fail fire_dhcp_machine
  handle_reply offer layer x =
      send_or_fail (create_dhcp_req layer.your_client_ip x.service)
        (fire_dhcp_machine DhcpTx.request_sent) x
  handle_reply ack layer x = fire_dhcp_machine DhcpTx.ack_received x
  handle_reply _ layer x = ok x

  -- HandleNextPacket, of a packet with this DHCP layer or none.
  unfoldable pub handle_dhcp_packet : Option DhcpLayer → Exchange → Result Exchange
  unfolding handle_reply fire_dhcp_machine
  handle_dhcp_packet none x = fire_dhcp_machine DhcpTx.fail_dhcp x
  handle_dhcp_packet (some layer) x = elim (get_dhcp_message_type layer.options) [
    | none ↦ fire_dhcp_machine DhcpTx.fail_dhcp x
    | some t ↦ if layer.is_reply then handle_reply t layer x else ok x
  ]
