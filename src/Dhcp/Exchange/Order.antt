-- ===== src/Dhcp/Exchange/Order.antt =====
-- What a service does with the packets of a DHCP server
-- (internal/bbsim/responders/dhcp/dhcp.go, HandleNextPacket).
use g_simulator.Prelude.{
  ℕ, ◌+◌, ◌≡◌, refl, ◌∙◌, Bool, true, false, List, [], ◌∷◌, Option, none, some, if◌then◌else◌,
  length, length-append, arith,
}
use g_simulator.Go.{Result, ok, ◌>>=◌, Yields, Yields-bind, Yields-map}
use g_simulator.Fsm.{Engine}
use g_simulator.Service.Machines.Dhcp.{DhcpState, DhcpTx, dhcp_event-next}
use g_simulator.Service.{fire_dhcp}
use g_simulator.Dhcp.Exchange.{
  DhcpLayer, DhcpMsgType, Place, Exchange, offer, ack, get_dhcp_message_type, fire_dhcp_machine,
  send_dhcp_pkt_in, create_dhcp_disc, create_dhcp_req, handle_dhcp_start, handle_reply,
  handle_dhcp_packet,
}

-- The packets that a service acts on: offers, acknowledgements, and those whose type it cannot tell
-- (a refusal of the server is one of them).
pub data Kind : Type 0 where
  offered acked unreadable : Kind

abbrev pub reply_kind : DhcpMsgType → Option Kind
reply_kind offer = some offered
reply_kind ack = some acked
reply_kind _ = none

abbrev pub kind_of : Option DhcpLayer → Option Kind
kind_of none = some unreadable
kind_of (some layer) = elim (get_dhcp_message_type layer.options) [
  | none ↦ some unreadable
  | some t ↦ if layer.is_reply then reply_kind t else none
]

-- The kinds of the packets that count, in their order.
abbrev pub kinds : List (Option DhcpLayer) → List Kind
kinds [] = []
kinds (p ∷ ps) = elim (kind_of p) [ none ↦ kinds ps | some k ↦ k ∷ kinds ps ]

-- How an exchange ends that waits for an acknowledgement, and one that waits for an offer.
abbrev pub after_offer : List Kind → DhcpState
after_offer [] = DhcpState.dhcp_request_sent
after_offer (offered ∷ ks) = after_offer ks
after_offer (acked ∷ _) = DhcpState.dhcp_ack_received
after_offer (unreadable ∷ _) = DhcpState.dhcp_failed

abbrev pub after_discovery : List Kind → DhcpState
after_discovery [] = DhcpState.dhcp_discovery_sent
after_discovery (offered ∷ ks) = after_offer ks
after_discovery (acked ∷ ks) = after_discovery ks
after_discovery (unreadable ∷ _) = DhcpState.dhcp_failed

abbrev pub offers : List Kind → ℕ
offers [] = 0
offers (offered ∷ ks) = 1 + offers ks
offers (_ ∷ ks) = offers ks

-- The same, from any state of an exchange that was started.
abbrev from_state : DhcpState → List Kind → DhcpState
from_state DhcpState.dhcp_discovery_sent ks = after_discovery ks
from_state DhcpState.dhcp_request_sent ks = after_offer ks
from_state s ks = s

abbrev IsUnderWay : DhcpState → Type 0
IsUnderWay DhcpState.created = ⊥
IsUnderWay DhcpState.dhcp_started = ⊥
IsUnderWay _ = Unit

-- After the packet, the exchange goes on as it would have with it, and every offer was answered.
abbrev Goes : DhcpState → ℕ → Option Kind → Exchange → Type 0
Goes s n o y =
    IsUnderWay y.service.dhcp_state
    × ((ks : List Kind)
        → from_state y.service.dhcp_state ks
          ≡ from_state s (elim o [ none ↦ ks | some k ↦ k ∷ ks ]))
    × (length y.sent ≡ n + offers (elim o [ none ↦ [] | some k ↦ k ∷ [] ]))

from_nil : (s : DhcpState) → s ≡ from_state s []
from_nil s = ground arith

module _ (engine : Engine) (host : ℕ → ℕ → ℕ → List ℕ) (place : Place) where
  failed-Goes :
      (x : Exchange)
      → IsUnderWay x.service.dhcp_state
      → Yields
          (Goes x.service.dhcp_state (length x.sent) (some unreadable))
          (fire_dhcp_machine engine host place true true DhcpTx.fail_dhcp x)
  unfolding fire_dhcp_machine fire_dhcp
  failed-Goes x u = ground (arith, dhcp_event-next engine x.service.dhcp_state DhcpTx.fail_dhcp)

  offered-Goes :
      (layer : DhcpLayer) (x : Exchange)
      → IsUnderWay x.service.dhcp_state
      → Yields
          (Goes x.service.dhcp_state (length x.sent) (some offered))
          (handle_reply engine host place true true offer layer x)
  unfolding handle_reply fire_dhcp_machine fire_dhcp send_dhcp_pkt_in
  offered-Goes layer x u = ground (
    arith,
    dhcp_event-next engine x.service.dhcp_state DhcpTx.request_sent,
    length-append x.sent (
        (send_dhcp_pkt_in engine host place true true
          (create_dhcp_req engine host place true true layer.your_client_ip x.service)
          (record x { sent = [] })).sent),
  )

  acked-Goes :
      (layer : DhcpLayer) (x : Exchange)
      → IsUnderWay x.service.dhcp_state
      → Yields
          (Goes x.service.dhcp_state (length x.sent) (some acked))
          (handle_reply engine host place true true ack layer x)
  unfolding handle_reply fire_dhcp_machine fire_dhcp
  acked-Goes layer x u =
      ground (arith, dhcp_event-next engine x.service.dhcp_state DhcpTx.ack_received)

  reply-Goes :
      (t : DhcpMsgType) (layer : DhcpLayer) (x : Exchange)
      → IsUnderWay x.service.dhcp_state
      → Yields
          (Goes x.service.dhcp_state (length x.sent) (reply_kind t))
          (handle_reply engine host place true true t layer x)
  unfolding handle_reply
  reply-Goes offer layer x u = offered-Goes layer x u
  reply-Goes ack layer x u = acked-Goes layer x u
  reply-Goes _ layer x u = (u, λ ks. refl, ground arith)

  typed-Goes :
      (o : Option DhcpMsgType) (is_reply : Bool) (layer : DhcpLayer) (x : Exchange)
      → IsUnderWay x.service.dhcp_state
      → Yields
          (Goes x.service.dhcp_state
            (length x.sent)
            (elim o [ none ↦ some unreadable | some t ↦ if is_reply then reply_kind t else none ]))
          (elim o [
            | none ↦ fire_dhcp_machine engine host place true true DhcpTx.fail_dhcp x
            | some t ↦ if is_reply then handle_reply engine host place true true t layer x else ok x
          ])
  typed-Goes none b layer x u = failed-Goes x u
  typed-Goes (some t) true layer x u = reply-Goes t layer x u
  typed-Goes (some t) false layer x u = (u, λ ks. refl, ground arith)

  packet-Goes :
      (p : Option DhcpLayer) (x : Exchange)
      → IsUnderWay x.service.dhcp_state
      → Yields
          (Goes x.service.dhcp_state (length x.sent) (kind_of p))
          (handle_dhcp_packet engine host place true true p x)
  unfolding handle_dhcp_packet
  packet-Goes none x u = failed-Goes x u
  packet-Goes (some layer) x u =
      typed-Goes (get_dhcp_message_type layer.options) layer.is_reply layer x u

  -- The packets are handled one after the other.
  abbrev pub handle_all : List (Option DhcpLayer) → Exchange → Result Exchange
  handle_all [] x = ok x
  handle_all (p ∷ ps) x = do y ← handle_dhcp_packet engine host place true true p x; handle_all ps y

  -- After these packets the exchange is in the state, and has sent so much.
  abbrev Ends : DhcpState → ℕ → List Kind → Exchange → Type 0
  Ends s n ks z = (z.service.dhcp_state ≡ from_state s ks) × (length z.sent ≡ n + offers ks)

  next-Ends :
      (o : Option Kind) (s : DhcpState) (n : ℕ) (ks : List Kind) (y z : Exchange)
      → Goes s n o y
      → Ends y.service.dhcp_state (length y.sent) ks z
      → Ends s n (elim o [ none ↦ ks | some k ↦ k ∷ ks ]) z
  next-Ends none s n ks y z g e = (e.0 ∙ g.1 ks, ground (arith, e.1, g.2))
  next-Ends (some offered) s n ks y z g e = (e.0 ∙ g.1 ks, ground (arith, e.1, g.2))
  next-Ends (some acked) s n ks y z g e = (e.0 ∙ g.1 ks, ground (arith, e.1, g.2))
  next-Ends (some unreadable) s n ks y z g e = (e.0 ∙ g.1 ks, ground (arith, e.1, g.2))

  all-Ends :
      (ps : List (Option DhcpLayer)) (x : Exchange)
      → IsUnderWay x.service.dhcp_state
      → Yields (Ends x.service.dhcp_state (length x.sent) (kinds ps)) (handle_all ps x)
  all-Ends [] x u = (from_nil x.service.dhcp_state, ground arith)
  all-Ends (p ∷ ps) x u =
      Yields-bind (Goes x.service.dhcp_state (length x.sent) (kind_of p)) _
        (handle_dhcp_packet engine host place true true p x) _ (packet-Goes p x u)
        λ y g.
          Yields-map _ _ (handle_all ps y)
            (λ z e. next-Ends (kind_of p) x.service.dhcp_state (length x.sent) (kinds ps) y z g e)
            (all-Ends ps y g.0)

  start-Yields :
      (x : Exchange)
      → x.service.dhcp_state ≡ DhcpState.dhcp_started
      → Yields
          (λ y.
            (y.service.dhcp_state ≡ DhcpState.dhcp_discovery_sent)
            × (length y.sent ≡ length x.sent + 1))
          (handle_dhcp_start engine host place true true x)
  unfolding handle_dhcp_start fire_dhcp send_dhcp_pkt_in
  start-Yields x s = ground (
    arith,
    dhcp_event-next engine DhcpState.dhcp_started DhcpTx.discovery_sent,
    length-append x.sent (
        (send_dhcp_pkt_in engine host place true true
          (create_dhcp_disc engine host place true true x.service) (record x { sent = [] })).sent),
  )

  -- The DHCP exchange from the message StartDHCP of a service whose DHCP has started, if packets can be
  -- serialized and the stream takes them, whatever packets come after that: nothing blocks or panics; the
  -- service ends with an acknowledged address exactly if an offer, then an acknowledgement came before any
  -- packet whose type it cannot tell, which fails the exchange, and an acknowledgement before an offer
  -- counts for nothing; it has sent one discovery and one request for every offer, also for those that
  -- come after the exchange has ended or failed.
  pub dhcp_exchange_lem :
      (ps : List (Option DhcpLayer)) (x : Exchange)
      → x.service.dhcp_state ≡ DhcpState.dhcp_started
      → Yields
          (λ z.
            (z.service.dhcp_state ≡ after_discovery (kinds ps))
            × (length z.sent ≡ length x.sent + 1 + offers (kinds ps)))
          (do y ← handle_dhcp_start engine host place true true x; handle_all ps y)
  dhcp_exchange_lem ps x s =
      Yields-bind
        (λ y.
          (y.service.dhcp_state ≡ DhcpState.dhcp_discovery_sent)
          × (length y.sent ≡ length x.sent + 1))
        _ (handle_dhcp_start engine host place true true x) _ (start-Yields x s)
        λ y e.
          Yields-map _ _ (handle_all ps y) (λ z k. ground (arith, e, k))
            (all-Ends ps y (ground (arith, e)))
