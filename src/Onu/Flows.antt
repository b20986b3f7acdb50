-- ===== src/Onu/Flows.antt =====
-- Flows and ports of an ONU (internal/bbsim/devices/onu.go: handleFlowAdd, handleFlowRemove,
-- DeleteFlow and the Find functions).
pub mod Removal
pub mod Faults
use g_simulator.Prelude.{
  ℕ, Bool, true, false, ◌&&◌, List, [], ◌∷◌, ◌++◌, Option, none, some, ◌==◌, if◌then◌else◌, find,
  u8, u16, u32,
}
use g_simulator.Prelude.Map
use g_simulator.Prelude.Map.{nat_eq}
use g_simulator.Go.{Result, ok, panics, Chan, ◌>>=◌, close}
use g_simulator.Fsm.{Engine}
use g_simulator.Messages.{Flow}
use g_simulator.Omci.EntityId.{from_uint16, equals}
use g_simulator.Service.{Service}
use g_simulator.Uni.{
  UniPort, PotsPort, ethernet_type_eapol, ethernet_type_ipv4, add_gem_port_to_service,
  store_port_no, handle_uni_auth, handle_uni_dhcp, find_service_by_mac_address,
}
use g_simulator.Onu.Machine.{OnuState}
use g_simulator.Onu.State.{Onu}

-- FindUniById, FindPotsById, FindUniByEntityId, FindPotsByEntityId and findUniByPortNo; `none` is the error.
unfoldable pub find_uni_by_id : ℕ → Onu → Option UniPort
find_uni_by_id uni_id o = find (λ u. u.id == uni_id) o.uni_ports

unfoldable pub find_pots_by_id : ℕ → Onu → Option PotsPort
find_pots_by_id uni_id o = find (λ p. p.id == uni_id) o.pots_ports

unfoldable pub find_uni_by_entity_id : ℕ → Onu → Option UniPort
find_uni_by_entity_id me_id o = find (λ u. equals u.me_id (from_uint16 me_id)) o.uni_ports

unfoldable pub find_pots_by_entity_id : ℕ → Onu → Option PotsPort
find_pots_by_entity_id me_id o = find (λ p. equals p.me_id (from_uint16 me_id)) o.pots_ports

unfoldable pub find_uni_by_port_no : ℕ → Onu → Option UniPort
find_uni_by_port_no port_no o = find (λ u. u.port_no == port_no) o.uni_ports

-- findServiceByMacAddress of an ONU.
find_service_in : List ℕ → List UniPort → Option Service
find_service_in mac [] = none
find_service_in mac (u ∷ us) = elim (find_service_by_mac_address mac u) [
  | some s ↦ some s
  | none ↦ find_service_in mac us
]

unfoldable pub find_onu_service_by_mac_address : List ℕ → Onu → Option Service
unfolding find_service_in
find_onu_service_by_mac_address mac o = find_service_in mac o.uni_ports

-- A method of the first port that passes the test; with none, the method has a nil receiver.
unfoldable pub with_first {ℓ} :
    {P : Type ℓ} → (P → Bool) → (P → Result P) → List P → Result (List P)
with_first test f [] = panics
with_first test f (p ∷ ps) =
    let rest = with_first test f ps in
    if test p then (do q ← f p; ok (q ∷ ps)) else (do qs ← rest; ok (p ∷ qs))

-- The GEM port of a flow: of a replicated flow that of priority 0, and 0 if the map lacks it.
unfoldable pub gem_port_of : Flow → ℕ
gem_port_of f =
    if f.replicate_flow
    then elim (Map.lookup 0 f.pbit_to_gemport) [ some g ↦ g | none ↦ 0 ]
    else f.gemport_id

-- What handleFlowAdd does at the UNI of the flow.
unfoldable pub add_flow_to_uni : Engine → Flow → UniPort → Result UniPort
unfolding gem_port_of
add_flow_to_uni engine f u =
    let v =
      store_port_no f.port_no
        (add_gem_port_to_service (gem_port_of f) f.eth_type f.o_vid f.i_vid u) in
    if f.eth_type == ethernet_type_eapol && f.o_vid == 4091
    then handle_uni_auth engine v
    else if f.eth_type == ethernet_type_ipv4 && (f.src_port == 68 && f.dst_port == 67)
    then handle_uni_dhcp engine (u8 f.o_pbits) f.o_vid v
    else ok v

-- handleFlowAdd.
unfoldable pub handle_flow_add : Engine → Flow → Onu → Result Onu
handle_flow_add engine f o = do
  unis ← with_first (λ u. u.id == f.uni_id) (add_flow_to_uni engine f) o.uni_ports
  ok (record o { flow_ids = o.flow_ids ++ f.flow_id ∷ []; uni_ports = unis })

-- The loops of handleFlowRemove and DeleteFlow: the first occurrence goes.
unfoldable pub remove_first : ℕ → List ℕ → List ℕ
remove_first id [] = []
remove_first id (x ∷ xs) = if x == id then xs else x ∷ remove_first id xs

-- `if o.InternalState.Current() == OnuStateDisabled { close(o.Channel) }`.
unfoldable pub close_if_disabled : OnuState → Onu → Result Onu
close_if_disabled OnuState.disabled o = do
  channel ← close o.channel
  ok (record o { channel = channel })
close_if_disabled _ o = ok o

-- The end of handleFlowRemove.
unfoldable pub when_no_flow_left : List ℕ → Onu → Result Onu
unfolding close_if_disabled
when_no_flow_left [] o = close_if_disabled o.internal_state o
when_no_flow_left (_ ∷ _) o = ok o

-- handleFlowRemove.
unfoldable pub handle_flow_remove : ℕ → Onu → Result Onu
unfolding when_no_flow_left
handle_flow_remove flow_id o =
    let ids = remove_first flow_id o.flow_ids in when_no_flow_left ids (record o { flow_ids = ids })

-- DeleteFlow.
unfoldable pub delete_flow : ℕ → Onu → Onu
delete_flow key o = record o { flows = remove_first key o.flows }
