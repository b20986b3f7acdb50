-- ===== src/Dhcp/Server/RoundTrip.antt =====
-- A service and the DHCP server behind the NNI, with their packets carried between them
-- (internal/bbsim/responders/dhcp/dhcp.go and dhcp_server.go).
use g_simulator.Prelude.{
  ℕ, ◌+◌, ◌≡◌, refl, true, List, [], ◌∷◌, ◌++◌, Option, none, some, u8, arith,
}
use g_simulator.Go.{Result, ok, ◌>>=◌}
use g_simulator.Fsm.{Engine}
use g_simulator.Service.Machines.Dhcp.{DhcpState, DhcpTx, dhcp_event-next}
use g_simulator.Service.{fire_dhcp}
use g_simulator.Dhcp.{create_ip_from_mac_address}
use g_simulator.Omci.EntityId.{equals}
use g_simulator.Dhcp.Exchange.{
  option, message_type, hostname, relay_agent, client_id, DhcpLayer, DhcpPacketIn, Place, Exchange,
  get_dhcp_message_type, create_dhcp_disc, create_dhcp_req, send_dhcp_pkt_in, handle_dhcp_start,
  handle_dhcp_packet,
}
use g_simulator.Dhcp.Server.{
  pushed, ServerReply, handle_server_packet, get_packet_host_name, get_option82,
}

-- The packet sent last.
abbrev pub last_sent : List DhcpPacketIn → Option DhcpPacketIn
last_sent [] = none
last_sent (p ∷ []) = some p
last_sent (_ ∷ ps) = last_sent ps

last_sent-append : (ps : List DhcpPacketIn) (p : DhcpPacketIn) → last_sent (ps ++ p ∷ []) ≡ some p
last_sent-append [] p = refl
last_sent-append (q ∷ []) p = refl
last_sent-append (q ∷ r ∷ ps) p = last_sent-append (r ∷ ps) p

-- The address that the server makes of these bytes of a MAC address.
abbrev pub address : ℕ → ℕ → List ℕ
address m2 m4 = 192 ∷ 168 ∷ u8 (30 + m2) ∷ u8 (2 + m4) ∷ []

module _ (engine : Engine) (host : ℕ → ℕ → ℕ → List ℕ) (place : Place) (tags : ℕ × ℕ) where
  -- The service gets a reply, if there is one.
  abbrev get_reply : Option ServerReply → Exchange → Result Exchange
  get_reply none x = ok x
  get_reply (some r) x = handle_dhcp_packet engine host place true true (some r.layer) x

  -- The server answers a packet of the service.
  abbrev ask : Option DhcpPacketIn → Exchange → Result Exchange
  ask none x = ok x
  ask (some p) x = do
    r ← handle_server_packet true (record { tags = some tags; layer = some p.layer })
    get_reply r x

  -- The server answers the discovery and the request of a service.
  abbrev pub obtain : Exchange → Result Exchange
  obtain x = do
    y ← handle_dhcp_start engine host place true true x
    z ← ask (last_sent y.sent) y
    ask (last_sent z.sent) z

  discovered_lem :
      (x : Exchange)
      → x.service.dhcp_state ≡ DhcpState.dhcp_started
      → handle_dhcp_start engine host place true true x
        ≡ ok
            (record (send_dhcp_pkt_in engine host place true true
              (create_dhcp_disc engine host place true true x.service)
              x) { service = record x.service { dhcp_state = DhcpState.dhcp_discovery_sent } })
  unfolding handle_dhcp_start fire_dhcp send_dhcp_pkt_in
  discovered_lem x s =
      ground (arith, s, dhcp_event-next engine DhcpState.dhcp_started DhcpTx.discovery_sent)

  module _ (m0 m1 m2 m3 m4 m5 : ℕ) where
    abbrev mac : List ℕ
    mac = m0 ∷ m1 ∷ m2 ∷ m3 ∷ m4 ∷ m5 ∷ []

    -- The server's reply of this type to a packet of the service.
    abbrev reply : ℕ → DhcpLayer → ℕ → ServerReply
    reply kind asked gem_port = record {
      tags = pushed tags.0 tags.1;
      dst_mac = mac;
      layer = record {
        is_reply = true;
        xid = asked.xid;
        client_hw_addr = mac;
        your_client_ip = address m2 m4;
        options =
            option message_type (kind ∷ [])
            ∷ option hostname (host gem_port place.intf_id place.onu_id)
            ∷ option relay_agent []
            ∷ option client_id (1 ∷ mac)
            ∷ [];
      };
    }

    offered_lem :
        (x : Exchange)
        → x.service.hw_address ≡ mac
        → let l = create_dhcp_disc engine host place true true x.service in
          handle_server_packet true (record { tags = some tags; layer = some l })
          ≡ ok (some (reply 2 l x.service.gem_port))
    unfolding handle_server_packet get_packet_host_name get_option82 create_ip_from_mac_address
        create_dhcp_disc get_dhcp_message_type equals
    offered_lem x h = ground (arith, h)

    acknowledged_lem :
        (ip : List ℕ) (x : Exchange)
        → x.service.hw_address ≡ mac
        → let l = create_dhcp_req engine host place true true ip x.service in
          handle_server_packet true (record { tags = some tags; layer = some l })
          ≡ ok (some (reply 5 l x.service.gem_port))
    unfolding handle_server_packet get_packet_host_name get_option82 create_ip_from_mac_address
        create_dhcp_req get_dhcp_message_type equals
    acknowledged_lem ip x h = ground (arith, h)

    -- The service has sent this packet, and the state is this.
    abbrev went : DhcpState → DhcpLayer → Exchange → Exchange
    went d l x = record (send_dhcp_pkt_in engine host place true true l x) {
      service = record x.service { dhcp_state = d };
    }

    requested_lem :
        (asked : DhcpLayer) (x : Exchange)
        → x.service.dhcp_state ≡ DhcpState.dhcp_discovery_sent
        → get_reply (some (reply 2 asked x.service.gem_port)) x
          ≡ ok (
              went DhcpState.dhcp_request_sent
                (create_dhcp_req engine host place true true (address m2 m4) x.service)
                x)
    unfolding handle_dhcp_packet get_dhcp_message_type equals fire_dhcp send_dhcp_pkt_in
    requested_lem asked x s =
        ground (arith, s, dhcp_event-next engine DhcpState.dhcp_discovery_sent DhcpTx.request_sent)

    done_lem :
        (asked : DhcpLayer) (x : Exchange)
        → x.service.dhcp_state ≡ DhcpState.dhcp_request_sent
        → get_reply (some (reply 5 asked x.service.gem_port)) x
          ≡ ok
              (record x { service = record x.service { dhcp_state = DhcpState.dhcp_ack_received } })
    unfolding handle_dhcp_packet get_dhcp_message_type equals fire_dhcp
    done_lem asked x s =
        ground (arith, s, dhcp_event-next engine DhcpState.dhcp_request_sent DhcpTx.ack_received)

    asked_lem :
        (x : Exchange)
        → x.service.dhcp_state ≡ DhcpState.dhcp_discovery_sent
        → x.service.hw_address ≡ mac
        → (before : List DhcpPacketIn) (p : DhcpPacketIn) → x.sent ≡ before ++ p ∷ []
        → p.layer ≡ create_dhcp_disc engine host place true true x.service
        → ask (last_sent x.sent) x
          ≡ ok (
              went DhcpState.dhcp_request_sent
                (create_dhcp_req engine host place true true (address m2 m4) x.service)
                x)
    asked_lem x s h before p e l = ground (
      arith,
      e,
      l,
      last_sent-append before p,
      offered_lem x h,
      requested_lem (create_dhcp_disc engine host place true true x.service) x s,
    )

    confirmed_lem :
        (ip : List ℕ) (x : Exchange)
        → x.service.dhcp_state ≡ DhcpState.dhcp_request_sent
        → x.service.hw_address ≡ mac
        → (before : List DhcpPacketIn) (p : DhcpPacketIn) → x.sent ≡ before ++ p ∷ []
        → p.layer ≡ create_dhcp_req engine host place true true ip x.service
        → ask (last_sent x.sent) x
          ≡ ok
              (record x { service = record x.service { dhcp_state = DhcpState.dhcp_ack_received } })
    confirmed_lem ip x s h before p e l = ground (
      arith,
      e,
      l,
      last_sent-append before p,
      acknowledged_lem ip x h,
      done_lem (create_dhcp_req engine host place true true ip x.service) x s,
    )

    sent_lem :
        (l : DhcpLayer) (x : Exchange)
        → (p : DhcpPacketIn) × ((send_dhcp_pkt_in engine host place true true l x).sent
            ≡ x.sent ++ p ∷ [])
          × (p.layer ≡ l)
    unfolding send_dhcp_pkt_in
    sent_lem l x = (_, refl, refl)

    -- A service with a MAC address of six bytes whose DHCP has started gets an address from the server of
    -- the OLT, if packets can be serialized and sent, the server finds their tags, and the packets of the
    -- two are carried to the other: the discovery is answered by an offer of the address that the server
    -- makes of the MAC address, the service requests just that address, and the acknowledgement of the
    -- request ends the exchange; the service has sent these two packets and is otherwise unchanged.
    pub obtain_lem :
        (x : Exchange)
        → x.service.dhcp_state ≡ DhcpState.dhcp_started
        → x.service.hw_address ≡ m0 ∷ m1 ∷ m2 ∷ m3 ∷ m4 ∷ m5 ∷ []
        → let disc = create_dhcp_disc engine host place true true x.service in
          let req = create_dhcp_req engine host place true true (address m2 m4) x.service in
          obtain x
          ≡ ok
              (record (send_dhcp_pkt_in engine host place true true req
                (send_dhcp_pkt_in engine host place true true disc x)) {
                  service = record x.service { dhcp_state = DhcpState.dhcp_ack_received };
                })
    unfolding create_dhcp_req send_dhcp_pkt_in create_dhcp_disc
    obtain_lem x s h =
        let disc = create_dhcp_disc engine host place true true x.service in
        let y = went DhcpState.dhcp_discovery_sent disc x in
        let (p, sent_p, layer_p) = sent_lem disc x in
        let req = create_dhcp_req engine host place true true (address m2 m4) x.service in
        let z = went DhcpState.dhcp_request_sent req y in
        let (q, sent_q, layer_q) = sent_lem req y in
        ground (
          arith,
          discovered_lem x s,
          asked_lem y refl h x.sent p sent_p layer_p,
          confirmed_lem (address m2 m4) z refl h y.sent q sent_q layer_q,
        )
