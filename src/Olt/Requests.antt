-- ===== src/Olt/Requests.antt =====
-- The requests of the controller about ONUs and PON ports (internal/bbsim/devices/olt.go: ActivateOnu,
-- DeleteOnu, OmciMsgOut, OnuPacketOut, DisableOlt, DisablePonIf, EnablePonIf, ReenableOlt, SetAlarm).
use g_simulator.Prelude.{
  ℕ, ◌+◌, u32, Bool, true, false, List, [], ◌∷◌, ◌++◌, Option, none, some, ◌==◌, if◌then◌else◌, map,
}
use g_simulator.Go.{Result, ok, panics, unmade, ◌>>=◌, deref, send}
use g_simulator.Fsm.{Engine}
use g_simulator.Messages.{Sn, OperStatus, up, down, OnuPacket, omci, onu_packet_out}
use g_simulator.Omci.Packet.{OmciMessage}
use g_simulator.Pon.{Resources}
use g_simulator.Onu.Machine.{OnuTx}
use g_simulator.Onu.State.{Onu, World, Task, re_discover_onu}
use g_simulator.Onu.Events.{fire_onu}
use g_simulator.Onu.Counters.{set_id}
use g_simulator.Olt.Machines.{PonState, OltState}
use g_simulator.Olt.Ids.{activate_ids}
use g_simulator.Olt.State.{
  is_disabled_state, PonPort, OltMessage, olt_indication, pon_indication, los_indication,
  Indication, onu_ind, OltDevice, get_pon_by_id, get_onu_by_id, bytes_equal, has_pon, has_nni,
}
use g_simulator.Olt.Flows.{with_onu, put}

-- The goroutines that an ONU started, with its serial number.
abbrev pub tagged : Sn → List Task → List (Sn × Task)
tagged sn ts = map (λ t. (sn, t)) ts

-- An ONU with the resources of its PON port. An event of its machine does not touch the channel of the
-- OLT, and sends no OMCI indication.
abbrev pub world_of : Resources → Onu → World
world_of p o = record {
  onu = o;
  pon = p;
  olt_channel = unmade;
  spawned = [];
  indications = [];
  published = [];
}

abbrev pub Changed : Type 0
Changed = Resources × List Onu × List (Sn × Task)

-- What an operation does to one ONU of a PON port.
unfoldable pub on_one :
    (World → Result World) → Resources → Onu → Result (Resources × Onu × List (Sn × Task))
on_one f p o = do w ← f (world_of p o); ok (w.pon, w.onu, tagged o.serial_number w.spawned)

-- An operation on the first ONU that passes the test; there is no other, it has a nil receiver.
unfoldable pub on_first :
    (Onu → Bool) → (World → Result World) → Resources → List Onu → Result Changed
on_first test f p [] = panics
on_first test f p (o ∷ os) =
    let rest = on_first test f p os in
    if test o
    then (do (p', o', ts) ← on_one f p o; ok (p', o' ∷ os, ts))
    else (do (p', os', ts) ← rest; ok (p', o ∷ os', ts))

-- The same at the first PON port with an id.
unfoldable pub at_pon :
    ℕ → (PonPort → Result Changed) → List PonPort → Result (List PonPort × List (Sn × Task))
at_pon id f [] = panics
at_pon id f (p ∷ ps) =
    let rest = at_pon id f ps in
    if p.id == id
    then (do (r, onus, ts) ← f p; ok (record p { resources = r; onus = onus } ∷ ps, ts))
    else (do (ps', ts) ← rest; ok (p ∷ ps', ts))

-- `o.channel <- msg`.
unfoldable pub tell_olt : OltMessage → OltDevice → Result OltDevice
tell_olt msg o = do channel ← send o.channel msg; ok (record o { channel = channel })

module _ (engine : Engine) (stream : ℕ) (is_mock : Bool) where
  -- `onu.InternalState.Event(tx)` whose error is only logged.
  unfoldable pub fire : OnuTx → World → Result World
  fire tx w = do (_, w') ← fire_onu engine stream is_mock tx w; ok w'

  -- ActivateOnu from SetID on.
  unfoldable pub set_id_and_enable : ℕ → World → Result World
  unfolding fire
  set_id_and_enable onu_id w = fire OnuTx.enable (record w { onu = set_id onu_id w.onu })

  -- ActivateOnu, for the last part of the serial number.
  unfoldable pub activate_onu : ℕ → ℕ → List ℕ → OltDevice → Result OltDevice
  activate_onu intf_id onu_id vendor_specific o = do
    allocs ← activate_ids intf_id onu_id o.alloc_ids
    gems ← activate_ids intf_id onu_id o.gem_port_ids
    (pons, ts) ←
        at_pon intf_id
          (λ p.
            on_first (λ u. bytes_equal u.serial_number.vendor_specific vendor_specific)
              (set_id_and_enable onu_id) p.resources p.onus)
          o.pons
    ok (record o {
      alloc_ids = allocs;
      gem_port_ids = gems;
      pons = pons;
      spawned = o.spawned ++ ts;
    })

  abbrev is_enabled : OltState → PonState → Bool
  is_enabled OltState.enabled PonState.enabled = true
  is_enabled _ _ = false

  -- DeleteOnu at the ONU.
  unfoldable pub disable_and_rediscover : Bool → World → Result World
  unfolding fire
  disable_and_rediscover rediscover w = do
    w' ← (if is_disabled_state w.onu.internal_state then ok w else fire OnuTx.disable w)
    ok (if rediscover then record w' { spawned = re_discover_onu ∷ w'.spawned } else w')

  -- DeleteOnu.
  unfoldable pub delete_onu : ℕ → ℕ → OltDevice → Result OltDevice
  delete_onu intf_id onu_id o = do
    (pons, ts) ←
        at_pon intf_id
          (λ p.
            on_first (λ u. u.id == onu_id)
              (disable_and_rediscover (is_enabled o.internal_state p.internal_state)) p.resources
              p.onus)
          o.pons
    ok (record o { pons = pons; spawned = o.spawned ++ ts })

-- The errors of OmciMsgOut.
pub data OmciOutError : Type 0 where
  pon_not_found onu_not_found malformed : OmciOutError

-- OmciMsgOut; `parsed` is the message that ParseOpenOltOmciPacket reads.
unfoldable pub omci_msg_out :
    ℕ → ℕ → Option OmciMessage → OltDevice → Result (Option OmciOutError × OltDevice)
omci_msg_out intf_id onu_id parsed o = elim (get_pon_by_id intf_id o) [
  | none ↦ ok (some pon_not_found, o)
  | some pon ↦ elim (get_onu_by_id onu_id pon) [
    | none ↦ ok (some onu_not_found, o)
    | some onu ↦ elim parsed [
      | none ↦ ok (some malformed, o)
      | some msg ↦ if is_disabled_state onu.internal_state then ok (none, o) else (do
        pons ← with_onu intf_id onu_id (put (omci msg)) o.pons
        ok (none, record o { pons = pons }))
    ]
  ]
]

-- OnuPacketOut; `read` is the packet, if its type and its destination can be read.
unfoldable pub onu_packet_out_olt : ℕ → ℕ → Option OnuPacket → OltDevice → Result OltDevice
onu_packet_out_olt intf_id onu_id read o = do
  pon ← deref (get_pon_by_id intf_id o)
  onu ← deref (get_onu_by_id onu_id pon)
  elim read [
    | none ↦ ok o
    | some packet ↦ do
      pons ← with_onu intf_id onu_id (put (onu_packet_out packet)) o.pons
      ok (record o { pons = pons })
  ]

abbrev pub same_pon_state : PonState → PonState → Bool
same_pon_state PonState.created PonState.created = true
same_pon_state PonState.enabled PonState.enabled = true
same_pon_state PonState.disabled PonState.disabled = true
same_pon_state _ _ = false

-- The loops of DisableOlt and ReenableOlt over the PON ports.
unfoldable pub tell_pons : PonState → OperStatus → List PonPort → OltDevice → Result OltDevice
tell_pons s status [] o = ok o
tell_pons s status (p ∷ ps) o = do
  o' ← (if same_pon_state p.internal_state s then tell_olt (pon_indication status p.id) o else ok o)
  tell_pons s status ps o'

-- DisableOlt.
unfoldable pub disable_olt : OltDevice → Result OltDevice
disable_olt o = do o' ← tell_pons PonState.enabled down o.pons o; tell_olt (olt_indication down) o'

-- ReenableOlt.
unfoldable pub reenable_olt : OltDevice → Result OltDevice
reenable_olt o = do o' ← tell_olt (olt_indication up) o; tell_pons PonState.disabled up o'.pons o'

-- The loop of DisablePonIf and EnablePonIf: sendOnuIndication of each ONU of the PON port.
unfoldable pub onu_indications : OperStatus → List Onu → List Indication
onu_indications status [] = []
onu_indications status (u ∷ us) =
    onu_ind u.pon_port_id u.id status u.oper_state u.serial_number ∷ onu_indications status us

-- DisablePonIf and EnablePonIf.
unfoldable pub switch_pon_if : OperStatus → ℕ → OltDevice → Result OltDevice
switch_pon_if status id o = do
  o' ← tell_olt (pon_indication status id) o
  pon ← deref (get_pon_by_id id o')
  ok (record o' { sent = o'.sent ++ onu_indications status pon.onus })

-- The `interfaceType` of an alarm.
pub data Interface : Type 0 where
  nni pon other : Interface

-- InterfaceIDToPortNo.
unfoldable pub interface_id_to_port_no : Interface → ℕ → ℕ
interface_id_to_port_no nni id = u32 (1000 + id)
interface_id_to_port_no pon id = u32 (100 + id)
interface_id_to_port_no other id = 0

-- The switch of SetAlarm over the type of the interface.
unfoldable pub has_interface : Interface → ℕ → OltDevice → Bool
has_interface nni id o = has_nni id o.nnis
has_interface pon id o = has_pon id o.pons
has_interface other id o = true

-- SetAlarm of the OLT; `false` stands for the error NotFound.
unfoldable pub set_olt_alarm : ℕ → Interface → Bool → OltDevice → Result (Bool × OltDevice)
unfolding has_interface interface_id_to_port_no
set_olt_alarm id kind raised o =
    if has_interface kind id o
    then (do
      o' ← tell_olt (los_indication raised (interface_id_to_port_no kind id)) o
      ok (true, o'))
    else ok (false, o)
