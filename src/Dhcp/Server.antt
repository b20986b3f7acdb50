-- ===== src/Dhcp/Server.antt =====
-- The DHCP server behind the NNI (internal/bbsim/responders/dhcp/dhcp_server.go).
pub mod RoundTrip
use g_simulator.Prelude.{
  ℕ, Bool, true, false, List, [], ◌∷◌, ◌++◌, Option, none, some, ◌==◌, if◌then◌else◌,
}
use g_simulator.Go.{Result, ok, panics, ◌>>=◌}
use g_simulator.Dhcp.{create_ip_from_mac_address}
use g_simulator.Dhcp.Exchange.{
  DhcpOpt, DhcpOption, DhcpLayer, discover, request, message_type, hostname, client_id, relay_agent,
  option, get_dhcp_message_type,
}

-- A packet at the NNI: the outer and inner tag that gopacket finds, 0 for no inner tag; and the DHCP
-- layer.
pub record ServerPacket : Type 0 where
  pub tags : Option (ℕ × ℕ)
  pub layer : Option DhcpLayer

-- What the server sends: the tags pushed on it, the destination and the layer.
pub record ServerReply : Type 0 where
  pub tags : List ℕ
  pub dst_mac : List ℕ
  pub layer : DhcpLayer

-- `option.Type == kind`.
abbrev is_hostname : DhcpOpt → Bool
is_hostname hostname = true
is_hostname _ = false

abbrev is_relay_agent : DhcpOpt → Bool
is_relay_agent relay_agent = true
is_relay_agent _ = false

-- The first option of a kind.
first_option : (DhcpOpt → Bool) → List DhcpOption → Option (List ℕ)
first_option test [] = none
first_option test (o ∷ rest) =
    let later = first_option test rest in if test o.kind then some o.bytes else later

-- getPacketHostName; `none` is the error.
unfoldable pub get_packet_host_name : DhcpLayer → Option (List ℕ)
unfolding first_option
get_packet_host_name layer = first_option is_hostname layer.options

-- getOption82: no bytes if there is none.
unfoldable pub get_option82 : DhcpLayer → List ℕ
unfolding first_option
get_option82 layer = elim (first_option is_relay_agent layer.options) [ none ↦ [] | some b ↦ b ]

-- createDefaultDhcpReply with these options; the client's address is also given as its ClientIP.
unfoldable pub create_default_dhcp_reply : ℕ → List ℕ → List DhcpOption → Result DhcpLayer
create_default_dhcp_reply xid mac options = do
  (a, b, c, d) ← create_ip_from_mac_address mac
  ok (record {
    is_reply = true;
    xid = xid;
    client_hw_addr = mac;
    your_client_ip = a ∷ b ∷ c ∷ d ∷ [];
    options = options;
  })

-- getDefaultDhcpServerOptions.
abbrev pub get_default_dhcp_server_options : List ℕ → List ℕ → List DhcpOption
get_default_dhcp_server_options host option82 =
    option hostname host ∷ option relay_agent option82 ∷ []

-- PushDoubleTag and PushSingleTag, the outer tag first.
abbrev pub pushed : ℕ → ℕ → List ℕ
pushed o_tag i_tag = if i_tag == 0 then o_tag ∷ [] else o_tag ∷ i_tag ∷ []

-- `packs`: does gopacket serialize the packet and push the tags without error?
module _ (packs : Bool) where
  -- handleDiscover and handleRequest, which differ in the type of the reply; `none` is the error.
  unfoldable pub answer : ℕ → ServerPacket → Result (Option ServerReply)
  unfolding create_default_dhcp_reply
  answer reply_type p = elim p.tags [
    | none ↦ ok none
    | some (o_tag, i_tag) ↦ elim p.layer [
      | none ↦ ok none
      | some asked ↦ elim (get_packet_host_name asked) [
        | none ↦ ok none
        | some host ↦ do
          let mac = asked.client_hw_addr
          layer ← create_default_dhcp_reply asked.xid mac (
              (option message_type (reply_type ∷ [])
                ∷ get_default_dhcp_server_options host (get_option82 asked))
              ++ option client_id (1 ∷ mac) ∷ [])
          ok (
              if packs
              then some (record { tags = pushed o_tag i_tag; dst_mac = mac; layer = layer })
              else none)
      ]
    ]
  ]

  unfoldable pub handle_discover : ServerPacket → Result (Option ServerReply)
  unfolding answer
  handle_discover p = answer 2 p

  unfoldable pub handle_request : ServerPacket → Result (Option ServerReply)
  unfolding answer
  handle_request p = answer 5 p

  -- HandleServerPacket: a packet without a DHCP layer is a nil dereference.
  unfoldable pub handle_server_packet : ServerPacket → Result (Option ServerReply)
  unfolding handle_discover handle_request
  handle_server_packet p = elim p.layer [
    | none ↦ panics
    | some layer ↦ elim (get_dhcp_message_type layer.options) [
      | some discover ↦ handle_discover p
      | some request ↦ handle_request p
      | _ ↦ ok none
    ]
  ]
