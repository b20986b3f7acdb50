-- ===== src/Scenarios/Dhcp.antt =====
-- Clients of the DHCP server.
use g_simulator.Dhcp.Server.RoundTrip.{obtain, obtain_lem}
use g_simulator.Go.{ok, ◌>>=◌, Yields}
use g_simulator.Fsm.{table_engine}
use g_simulator.Omci.EntityId.{equals}
use g_simulator.Service.Machines.Dhcp.{DhcpState}
use g_simulator.Dhcp.Exchange.{
  DhcpLayer, Place, Exchange, message_type, get_dhcp_message_type, create_dhcp_disc,
  create_dhcp_req, send_dhcp_pkt_in, handle_dhcp_start,
}
use g_simulator.Dhcp.Exchange.Order.{after_discovery, kinds, offers, handle_all, dhcp_exchange_lem}
use g_simulator.Scenarios.Values.{hsia}
use g_simulator.Prelude.{ℕ, List, ◌+◌, ◌≡◌, refl, true, Option, some, length}
use g_simulator.Prelude.{◌≡◌, [], ◌∷◌}
use g_simulator.Dhcp.{service_mac, create_ip_from_mac_address}
use g_simulator.Dhcp.Collisions.{create_ip_from_mac_address-service_mac}

create_ip_from_mac_address-service_mac_example :
    create_ip_from_mac_address (service_mac 0 1 5 0 0)
    ≡ create_ip_from_mac_address (service_mac 0 1 6 0 1)
create_ip_from_mac_address-service_mac_example =
    create_ip_from_mac_address-service_mac 0 5 0 0 6 1 1 0

abbrev place2 : Place
place2 = record { intf_id = 0; onu_id = 1; uni_id = 0; port_no = 16 }

abbrev reply_of : List ℕ → Option DhcpLayer
reply_of kind = some (record {
  is_reply = true;
  xid = 7;
  client_hw_addr = hsia.hw_address;
  your_client_ip = 192 ∷ 168 ∷ 30 ∷ 2 ∷ [];
  options = record { kind = message_type; bytes = kind } ∷ [];
})

-- An acknowledgement too early, an offer, an acknowledgement, and another offer.
abbrev replies : List (Option DhcpLayer)
replies = reply_of (5 ∷ []) ∷ reply_of (2 ∷ []) ∷ reply_of (5 ∷ []) ∷ reply_of (2 ∷ []) ∷ []

abbrev discovering : Exchange
discovering = record { service = record hsia { dhcp_state = DhcpState.dhcp_started }; sent = [] }

dhcp_exchange_lem_example :
    Yields
      (λ z.
        (z.service.dhcp_state ≡ after_discovery (kinds replies))
        × (length z.sent ≡ 1 + offers (kinds replies)))
      (do
        y ← handle_dhcp_start table_engine (λ g i o. []) place2 true true discovering
        handle_all table_engine (λ g i o. []) place2 replies y)
dhcp_exchange_lem_example =
    dhcp_exchange_lem table_engine (λ g i o. []) place2 replies discovering refl

replies-acknowledged :
    (after_discovery (kinds replies) ≡ DhcpState.dhcp_ack_received) × (offers (kinds replies) ≡ 2)
unfolding get_dhcp_message_type equals
replies-acknowledged = (refl, refl)

-- The same service, with a MAC address that the simulator gives.
abbrev asking : Exchange
asking = record discovering {
  service = record discovering.service { hw_address = 0x2e ∷ 0 ∷ 1 ∷ 5 ∷ 0 ∷ 0 ∷ [] };
}

abbrev no_host : ℕ → ℕ → ℕ → List ℕ
no_host g i o = []

obtain_lem_example :
    obtain table_engine no_host place2 (900, 911) asking
    ≡ ok
        (record (send_dhcp_pkt_in table_engine no_host place2 true true
          (create_dhcp_req table_engine no_host place2 true true
            (192 ∷ 168 ∷ 31 ∷ 2 ∷ [])
            asking.service)
          (send_dhcp_pkt_in table_engine no_host place2 true true
            (create_dhcp_disc table_engine no_host place2 true true asking.service)
            asking)) {
              service = record asking.service { dhcp_state = DhcpState.dhcp_ack_received };
            })
obtain_lem_example =
    obtain_lem table_engine no_host place2 (900, 911) 0x2e 0 1 5 0 0 asking refl refl
