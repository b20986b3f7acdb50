-- ===== src/Service/Machines/Dhcp.antt =====
-- `DHCPState` of a service (internal/bbsim/devices/services.go, lines 219-227).
use g_simulator.Prelude.{◌≡◌, refl, ◌∙◌, List, [], ◌∷◌}
use g_simulator.Fsm.{Row, Outcome, refused, moves, outcome, Engine}

pub data DhcpState : Type 0 where
  created dhcp_started dhcp_discovery_sent dhcp_request_sent dhcp_ack_received dhcp_failed :
      DhcpState

pub data DhcpTx : Type 0 where
  start_dhcp discovery_sent request_sent ack_received fail_dhcp : DhcpTx

pub DhcpState-discrete : Discrete DhcpState
DhcpState-discrete = hlevel

pub DhcpTx-discrete : Discrete DhcpTx
DhcpTx-discrete = hlevel

row : DhcpTx → List DhcpState → DhcpState → Row DhcpState DhcpTx
row name src dst = record { name = name; src = src; dst = dst }

pub dhcp_events : List (Row DhcpState DhcpTx)
unfolding row
dhcp_events =
    row start_dhcp (created ∷ dhcp_ack_received ∷ dhcp_failed ∷ []) dhcp_started
    ∷ row discovery_sent (dhcp_started ∷ []) dhcp_discovery_sent
    ∷ row request_sent (dhcp_discovery_sent ∷ []) dhcp_request_sent
    ∷ row ack_received (dhcp_request_sent ∷ []) dhcp_ack_received
    ∷ row fail_dhcp (dhcp_started ∷ dhcp_discovery_sent ∷ dhcp_request_sent ∷ []) dhcp_failed
    ∷ []

-- The same table read as a function.
abbrev pub next : DhcpState → DhcpTx → Outcome DhcpState
next created start_dhcp = moves dhcp_started
next dhcp_ack_received start_dhcp = moves dhcp_started
next dhcp_failed start_dhcp = moves dhcp_started
next dhcp_started discovery_sent = moves dhcp_discovery_sent
next dhcp_discovery_sent request_sent = moves dhcp_request_sent
next dhcp_request_sent ack_received = moves dhcp_ack_received
next dhcp_started fail_dhcp = moves dhcp_failed
next dhcp_discovery_sent fail_dhcp = moves dhcp_failed
next dhcp_request_sent fail_dhcp = moves dhcp_failed
next _ _ = refused

outcome-next :
    (s : DhcpState) (tx : DhcpTx)
    → outcome DhcpState-discrete DhcpTx-discrete dhcp_events s tx ≡ next s tx
unfolding dhcp_events DhcpState-discrete DhcpTx-discrete
outcome-next created start_dhcp = refl
outcome-next created _ = refl
outcome-next dhcp_started start_dhcp = refl
outcome-next dhcp_started _ = refl
outcome-next dhcp_discovery_sent start_dhcp = refl
outcome-next dhcp_discovery_sent _ = refl
outcome-next dhcp_request_sent start_dhcp = refl
outcome-next dhcp_request_sent _ = refl
outcome-next dhcp_ack_received start_dhcp = refl
outcome-next dhcp_ack_received _ = refl
outcome-next dhcp_failed start_dhcp = refl
outcome-next dhcp_failed _ = refl

module _ (engine : Engine) where
  unfoldable pub dhcp_event : DhcpState → DhcpTx → Outcome DhcpState
  dhcp_event s tx = engine.fire DhcpState-discrete DhcpTx-discrete dhcp_events s tx

  pub dhcp_event-next : (s : DhcpState) (tx : DhcpTx) → dhcp_event s tx ≡ next s tx
  unfolding dhcp_event
  dhcp_event-next s tx = engine.fire_lem _ _ dhcp_events s tx ∙ outcome-next s tx
