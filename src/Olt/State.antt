-- ===== src/Olt/State.antt =====
-- The state of the OLT and of its ports (internal/bbsim/devices/olt.go, pon.go and nni.go), and the
-- lookups over them.
use g_simulator.Prelude.{
  ℕ, ◌+◌, u32, Bool, true, false, ◌&&◌, List, [], ◌∷◌, Option, none, some, ◌==◌, if◌then◌else◌,
  find,
}
use g_simulator.Go.{Chan}
use g_simulator.Oper.{OperState}
use g_simulator.Messages.{Sn, OperStatus, Flow}
use g_simulator.Pon.{Resources}
use g_simulator.Service.{Service}
use g_simulator.Alarms.{AlarmIndication}
use g_simulator.Onu.Machine.{OnuState}
use g_simulator.Onu.State.{Onu, Task}
use g_simulator.Onu.Flows.{find_onu_service_by_mac_address}
use g_simulator.Olt.Machines.{PonState, OltState}
use g_simulator.Olt.Ids.{Ids}

-- PonPort.
pub record PonPort : Type 0 where
  pub id : ℕ
  pub internal_state : PonState
  pub oper_state : OperState
  pub onus : List Onu
  pub resources : Resources

-- NniPort.
pub record NniPort : Type 0 where
  pub id : ℕ
  pub oper_state : OperState

-- The constants of type `mode`.
pub data Mode : Type 0 where
  default_mode only_onu only_pon both : Mode

-- What the OLT reads of an `openolt.Flow` besides the fields that the ONU reads; `AccessIntfId` -1 has
-- the bit pattern of the constant below.
pub record OltFlow : Type 0 where
  pub flow : Flow
  pub access_intf_id : ℕ
  pub onu_id : ℕ
  pub alloc_id : ℕ
  pub is_multicast : Bool

abbrev pub no_intf : ℕ
no_intf = 4294967295

-- The messages of the OLT's channel.
pub data OltMessage : Type 0 where
  olt_indication : OperStatus → OltMessage
  nni_indication : OperStatus → ℕ → OltMessage
  pon_indication : OperStatus → ℕ → OltMessage
  alarm_indication : AlarmIndication → OltMessage
  -- The LosIndication of SetAlarm: raised or not, and the port number.
  los_indication : Bool → ℕ → OltMessage

-- The indications that are handed to the stream.
pub data Indication : Type 0 where
  olt_ind : OperStatus → Indication
  intf_ind : ℕ → OperState → Indication
  pon_oper_ind nni_oper_ind : ℕ → OperState → Indication
  onu_disc_ind : ℕ → Sn → Indication
  onu_ind : ℕ → ℕ → OperStatus → OperState → Sn → Indication
  alarm_ind : AlarmIndication → Indication
  los_ind : Bool → ℕ → Indication

-- OltDevice, less what the modelled code does not read, with the goroutines that its ONUs started
-- (by serial number) and the indications that were handed to the stream, oldest first.
pub record OltDevice : Type 0 where
  pub internal_state : OltState
  pub oper_state : OperState
  pub channel : Chan OltMessage
  pub flows : List (ℕ × OltFlow)
  pub controlled_activation : Mode
  pub previously_connected : Bool
  pub enable_perf : Bool
  pub pons : List PonPort
  pub nnis : List NniPort
  pub alloc_ids : Ids
  pub gem_port_ids : Ids
  pub spawned : List (Sn × Task)
  pub sent : List Indication

-- GetPonById and getNniById; `none` is the error, with which the source returns nil.
unfoldable pub get_pon_by_id : ℕ → OltDevice → Option PonPort
get_pon_by_id id o = find (λ p. p.id == id) o.pons

unfoldable pub get_nni_by_id : ℕ → OltDevice → Option NniPort
get_nni_by_id id o = find (λ n. n.id == id) o.nnis

-- HasPon and HasNni.
unfoldable pub has_pon : ℕ → List PonPort → Bool
has_pon id [] = false
has_pon id (p ∷ ps) = if p.id == id then true else has_pon id ps

unfoldable pub has_nni : ℕ → List NniPort → Bool
has_nni id [] = false
has_nni id (n ∷ ns) = if n.id == id then true else has_nni id ns

-- `bytes.Equal`.
unfoldable pub bytes_equal : List ℕ → List ℕ → Bool
bytes_equal [] [] = true
bytes_equal (x ∷ xs) (y ∷ ys) = if x == y then bytes_equal xs ys else false
bytes_equal _ _ = false

-- GetOnuBySn and GetOnuById of a PON port.
unfoldable pub get_onu_by_sn : List ℕ → PonPort → Option Onu
get_onu_by_sn vendor_specific p =
    find (λ o. bytes_equal o.serial_number.vendor_specific vendor_specific) p.onus

unfoldable pub get_onu_by_id : ℕ → PonPort → Option Onu
get_onu_by_id id p = find (λ o. o.id == id) p.onus

-- GetNumOfActiveOnus.
abbrev pub is_active : OnuState → Bool
is_active OnuState.initialized = false
is_active OnuState.created = false
is_active OnuState.disabled = false
is_active _ = true

unfoldable pub get_num_of_active_onus : List Onu → ℕ
get_num_of_active_onus [] = 0
get_num_of_active_onus (o ∷ os) =
    let rest = get_num_of_active_onus os in
    if is_active o.internal_state then u32 (rest + 1) else rest

-- FindOnuById of the OLT.
unfoldable pub find_onu_by_id : ℕ → ℕ → List PonPort → Option Onu
find_onu_by_id intf_id onu_id [] = none
find_onu_by_id intf_id onu_id (p ∷ ps) =
    let rest = find_onu_by_id intf_id onu_id ps in
    if p.id == intf_id
    then elim (get_onu_by_id onu_id p) [ some o ↦ some o | none ↦ rest ]
    else rest

abbrev pub is_disabled_state : OnuState → Bool
is_disabled_state OnuState.disabled = true
is_disabled_state _ = false

-- The loop of GetOnuByFlowId over the flows of an ONU.
unfoldable pub holds_flow_id : ℕ → List ℕ → Bool
holds_flow_id flow_id [] = false
holds_flow_id flow_id (x ∷ xs) = if x == flow_id then true else holds_flow_id flow_id xs

-- GetOnuByFlowId.
unfoldable pub get_onu_by_flow_id : ℕ → List PonPort → Option Onu
get_onu_by_flow_id flow_id [] = none
get_onu_by_flow_id flow_id (p ∷ ps) = elim (find (λ o. holds_flow_id flow_id o.flow_ids) p.onus) [
  | some o ↦ some o
  | none ↦ get_onu_by_flow_id flow_id ps
]

-- FindOnuBySn, by the parts of the serial number that Sn() prints.
unfoldable pub find_onu_by_sn : List ℕ → List ℕ → List PonPort → Option Onu
unfolding bytes_equal
find_onu_by_sn vendor_id vendor_specific [] = none
find_onu_by_sn vendor_id vendor_specific (p ∷ ps) =
    elim (find
      (λ o.
        bytes_equal o.serial_number.vendor_id vendor_id
        && bytes_equal o.serial_number.vendor_specific vendor_specific)
      p.onus) [ some o ↦ some o | none ↦ find_onu_by_sn vendor_id vendor_specific ps ]

-- FindServiceByMacAddress, over the ONUs of a PON port and over the PON ports.
unfoldable pub find_service_of_onus : List ℕ → List Onu → Option Service
find_service_of_onus mac [] = none
find_service_of_onus mac (o ∷ os) = elim (find_onu_service_by_mac_address mac o) [
  | some s ↦ some s
  | none ↦ find_service_of_onus mac os
]

unfoldable pub find_olt_service_by_mac_address : List ℕ → List PonPort → Option Service
find_olt_service_by_mac_address mac [] = none
find_olt_service_by_mac_address mac (p ∷ ps) = elim (find_service_of_onus mac p.onus) [
  | some s ↦ some s
  | none ↦ find_olt_service_by_mac_address mac ps
]
