-- ===== src/Uni.antt =====
-- UNI and POTS ports (internal/bbsim/devices/uni_port.go and pots_port.go). A port reaches its ONU
-- through a pointer: the parts of the ONU that it uses are arguments, the ONU's channel is passed
-- in and comes back.
pub mod Gems
pub mod Switching
pub mod Create
pub mod Tags
pub mod Fresh
pub mod Closed
use g_simulator.Prelude.{
  ℕ, ◌+◌, ◌≡◌, Bool, true, false, ◌&&◌, List, [], ◌∷◌, Option, none, some, ltb, ◌==◌, if◌then◌else◌,
  find, map,
}
use g_simulator.Go.{Result, ok, Chan, buffered, received, ◌>>=◌, send}
use g_simulator.Fsm.{Engine, refused, stays, moves, EventError, invalid_event, no_transition}
use g_simulator.Oper.{OperState, OperTx, oper_event}
use g_simulator.Oper
use g_simulator.Messages.{Sn, Message, OnuPacket, UniStatusAlarm, uni_status_alarm}
use g_simulator.Service.{Service}
use g_simulator.Service
use g_simulator.Omci.EntityId.{EntityId, to_uint16, equals}

-- UniPort.
pub record UniPort : Type 0 where
  pub id : ℕ
  pub me_id : EntityId
  pub port_no : ℕ
  pub oper_state : OperState
  pub services : List Service
  pub packet_ch : Chan OnuPacket

-- PotsPort.
pub record PotsPort : Type 0 where
  pub id : ℕ
  pub me_id : EntityId
  pub port_no : ℕ
  pub oper_state : OperState

-- What a port reads of its ONU and of the OLT: `uni.Onu.SerialNumber`, `uni.Onu.ID` and
-- `uni.Onu.PonPort.Olt.OpenoltStream`.
pub record Owner : Type 0 where
  pub serial_number : Sn
  pub onu_id : ℕ
  pub openolt_stream : ℕ

-- The UniStatusAlarm that a port puts on the channel of its ONU.
abbrev pub alarm_of : Owner → ℕ → ℕ → Bool → Message
alarm_of o entity_id admin_state raise = uni_status_alarm (record {
  onu_sn = o.serial_number;
  onu_id = o.onu_id;
  admin_state = admin_state;
  entity_id = entity_id;
  raise_omci_alarm = raise;
})

-- `for _, s := range uni.Services { f(s) }`.
unfoldable pub for_services : (Service → Result Service) → List Service → Result (List Service)
for_services f [] = ok []
for_services f (s ∷ rest) = do t ← f s; ts ← for_services f rest; ok (t ∷ ts)

-- `go uni.HandlePackets()`: from now on the unbuffered packet channel has a receiver; every enabling
-- starts another.
unfoldable pub listened : Chan OnuPacket → Chan OnuPacket
listened (buffered _ _) = received []
listened c = c

module _ (engine : Engine) (o : Owner) where
  -- The `enter_` callbacks of a UNI's OperState.
  enter_uni : OperState → Chan Message → UniPort → Result (Chan Message × UniPort)
  enter_uni Oper.up channel u = do
    entity_id ← to_uint16 u.me_id
    channel' ← send channel (alarm_of o entity_id 0 false)
    services ← for_services (Service.initialize engine o.openolt_stream) u.services
    ok (channel', record u { services = services; packet_ch = listened u.packet_ch })
  enter_uni Oper.down channel u = do
    entity_id ← to_uint16 u.me_id
    channel' ← send channel (alarm_of o entity_id 1 true)
    services ← for_services (Service.disable engine) u.services
    ok (channel', record u { services = services })

  -- `OperState.Event(tx)` of a UNI.
  fire_uni : OperTx → Chan Message → UniPort → Result (Option EventError × Chan Message × UniPort)
  unfolding enter_uni
  fire_uni tx channel u = elim (oper_event engine u.oper_state tx) [
    | refused ↦ ok (some invalid_event, channel, u)
    | stays ↦ ok (some no_transition, channel, u)
    | moves d ↦ do
      (channel', v) ← enter_uni d channel (record u { oper_state = d })
      ok (none, channel', v)
  ]

  -- Enable.
  unfoldable pub enable_uni :
      Chan Message → UniPort → Result (Option EventError × Chan Message × UniPort)
  unfolding fire_uni
  enable_uni channel u = fire_uni OperTx.enable channel u

  -- Disable.
  unfoldable pub disable_uni :
      Chan Message → UniPort → Result (Option EventError × Chan Message × UniPort)
  unfolding fire_uni
  disable_uni channel u = elim u.oper_state [
    | Oper.down ↦ ok (none, channel, u)
    | Oper.up ↦ fire_uni OperTx.disable channel u
  ]

  -- The `enter_` callbacks of a POTS port's OperState.
  enter_pots : OperState → Chan Message → PotsPort → Result (Chan Message × PotsPort)
  enter_pots Oper.up channel p = do
    entity_id ← to_uint16 p.me_id
    channel' ← send channel (alarm_of o entity_id 0 false)
    ok (channel', p)
  enter_pots Oper.down channel p = do
    entity_id ← to_uint16 p.me_id
    channel' ← send channel (alarm_of o entity_id 1 true)
    ok (channel', p)

  -- `OperState.Event(tx)` of a POTS port.
  fire_pots :
      OperTx → Chan Message → PotsPort → Result (Option EventError × Chan Message × PotsPort)
  unfolding enter_pots
  fire_pots tx channel p = elim (oper_event engine p.oper_state tx) [
    | refused ↦ ok (some invalid_event, channel, p)
    | stays ↦ ok (some no_transition, channel, p)
    | moves d ↦ do
      (channel', q) ← enter_pots d channel (record p { oper_state = d })
      ok (none, channel', q)
  ]

  -- PotsPort.Enable.
  unfoldable pub enable_pots :
      Chan Message → PotsPort → Result (Option EventError × Chan Message × PotsPort)
  unfolding fire_pots
  enable_pots channel p = fire_pots OperTx.enable channel p

  -- PotsPort.Disable.
  unfoldable pub disable_pots :
      Chan Message → PotsPort → Result (Option EventError × Chan Message × PotsPort)
  unfolding fire_pots
  disable_pots channel p = elim p.oper_state [
    | Oper.down ↦ ok (none, channel, p)
    | Oper.up ↦ fire_pots OperTx.disable channel p
  ]

-- StorePortNo.
unfoldable pub store_port_no : ℕ → UniPort → UniPort
store_port_no port_no u = record u { port_no = port_no }

unfoldable pub store_pots_port_no : ℕ → PotsPort → PotsPort
store_pots_port_no port_no p = record p { port_no = port_no }

-- UpdateStream.
unfoldable pub update_uni_stream : ℕ → UniPort → UniPort
update_uni_stream stream u = record u { services = map (Service.update_stream stream) u.services }

module _ (engine : Engine) where
  -- HandleAuth and HandleDhcp.
  unfoldable pub handle_uni_auth : UniPort → Result UniPort
  handle_uni_auth u = do
    services ← for_services (Service.handle_auth engine) u.services
    ok (record u { services = services })

  unfoldable pub handle_uni_dhcp : ℕ → ℕ → UniPort → Result UniPort
  handle_uni_dhcp o_pbit o_vid u = do
    services ← for_services (Service.handle_dhcp engine o_pbit o_vid) u.services
    ok (record u { services = services })

-- `layers.EthernetTypeEAPOL` and `layers.EthernetTypeIPv4`.
abbrev pub ethernet_type_eapol : ℕ
ethernet_type_eapol = 0x888e

abbrev pub ethernet_type_ipv4 : ℕ
ethernet_type_ipv4 = 0x0800

-- The body of the loop of addGemPortToService.
unfoldable pub add_gem_port : ℕ → ℕ → ℕ → ℕ → Service → Service
add_gem_port gemport eth_type o_vlan i_vlan s0 =
    let s1 =
      if eth_type == ethernet_type_eapol && s0.needs_eapol
      then record s0 { gem_port = gemport }
      else s0 in
    let s2 =
      if eth_type == ethernet_type_ipv4 && (s1.needs_dhcp && s1.c_tag == o_vlan)
      then record s1 { gem_port = gemport }
      else s1 in
    if s2.c_tag == i_vlan && s2.s_tag == o_vlan then record s2 { gem_port = gemport } else s2

-- addGemPortToService.
unfoldable pub add_gem_port_to_service : ℕ → ℕ → ℕ → ℕ → UniPort → UniPort
unfolding add_gem_port
add_gem_port_to_service gemport eth_type o_vlan i_vlan u = record u {
  services = map (add_gem_port gemport eth_type o_vlan i_vlan) u.services;
}

-- findServiceByMacAddress compares the printed addresses; printing is injective on byte lists.
unfoldable pub find_service_by_mac_address : List ℕ → UniPort → Option Service
find_service_by_mac_address mac u = find (λ s. equals s.hw_address mac) u.services
