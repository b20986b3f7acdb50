-- ===== src/Olt/Lifecycle.antt =====
-- The life of the OLT (internal/bbsim/devices/olt.go: the machine of CreateOLT with its callbacks InitOlt and
-- clearAllResources, processOltMessages, RestartOLT).
use g_simulator.Prelude.{suc, ℕ, Bool, true, false, List, [], ◌∷◌, ◌++◌, if◌then◌else◌}
use g_simulator.Prelude.Map
use g_simulator.Prelude.Map.{nat_eq}
use g_simulator.Go.{Result, ok, panics, received, ◌>>=◌, close}
use g_simulator.Fsm.{Engine, refused, stays, moves}
use g_simulator.Messages.{Sn, OperStatus}
use g_simulator.Oper.{OperState, OperTx, oper_event}
use g_simulator.Pon.{remove_all_alloc_ids, remove_all_gem_ports, remove_all_onu_ids}
use g_simulator.Onu.Machine.{OnuTx}
use g_simulator.Onu.State.{Task}
use g_simulator.Olt.Machines.{OltState, OltTx, olt_event}
use g_simulator.Olt.State.{PonPort, NniPort, OltMessage, Indication, OltDevice}
use g_simulator.Olt.Requests.{fire}
use g_simulator.Olt.Ports.{on_each, switch_pon_in, switch_nni_in, oper_tx}

abbrev pub olt_tx : OperStatus → OltTx
olt_tx OperStatus.up = OltTx.enable
olt_tx OperStatus.down = OltTx.disable

-- InitOlt, from a stopped server on: the maps of every PON port, by its place, and the NNI down.
unfoldable pub init_ids : ℕ → List PonPort → OltDevice → OltDevice
init_ids k [] o = o
init_ids k (p ∷ ps) o = init_ids (suc k) ps (record o {
  alloc_ids = Map.insert k [] o.alloc_ids;
  gem_port_ids = Map.insert k [] o.gem_port_ids;
})

-- `o.Nnis[0].OperState.SetState("down")`.
unfoldable pub first_nni_down : List NniPort → Result (List NniPort)
first_nni_down [] = panics
first_nni_down (n ∷ ns) = ok (record n { oper_state = OperState.down } ∷ ns)

unfoldable pub init_olt : OltDevice → Result OltDevice
unfolding init_ids first_nni_down
init_olt o = do
  nnis ← first_nni_down o.nnis
  ok (init_ids 0 o.pons (record o { channel = received []; nnis = nnis }))

-- clearAllResources.
unfoldable pub clear_pons : List PonPort → List PonPort
clear_pons [] = []
clear_pons (p ∷ ps) =
    record p {
      resources = remove_all_onu_ids (remove_all_gem_ports (remove_all_alloc_ids p.resources));
    }
    ∷ clear_pons ps

unfoldable pub clear_all_resources : OltDevice → OltDevice
unfolding clear_pons
clear_all_resources o = record o { gem_port_ids = []; alloc_ids = []; pons = clear_pons o.pons }

unfoldable pub enter_olt : OltState → OltDevice → Result OltDevice
unfolding init_olt clear_all_resources
enter_olt OltState.initialized o = init_olt o
enter_olt OltState.deleted o = ok (clear_all_resources o)
enter_olt _ o = ok o

module _ (engine : Engine) (stream : ℕ) (is_mock : Bool) where
  -- `o.OperState.Event(tx)` of the OLT, whose error is ignored.
  unfoldable pub fire_olt_oper : OperTx → OltDevice → OltDevice
  fire_olt_oper tx o = elim (oper_event engine o.oper_state tx) [
    | refused ↦ o
    | stays ↦ o
    | moves d ↦ record o { oper_state = d }
  ]

  -- `o.InternalState.Event(tx)` of the OLT; `false` is the error.
  unfoldable pub fire_olt : OltTx → OltDevice → Result (Bool × OltDevice)
  unfolding enter_olt
  fire_olt tx o = elim (olt_event engine o.internal_state tx) [
    | moves d ↦ do o' ← enter_olt d (record o { internal_state = d }); ok (true, o')
    | refused ↦ ok (false, o)
    | stays ↦ ok (false, o)
  ]

  -- A message in processOltMessages.
  unfoldable pub handle_olt_message :
      (Indication → Bool) → OltMessage → OltDevice → Result OltDevice
  unfolding fire_olt_oper
  handle_olt_message accepts (OltMessage.olt_indication status) o = do
    (_, o1) ← fire_olt (olt_tx status) o
    let o2 = fire_olt_oper (oper_tx status) o1
    ok (record o2 { sent = o2.sent ++ Indication.olt_ind status ∷ [] })
  handle_olt_message accepts (OltMessage.nni_indication status id) o = do
    (nnis, i) ← switch_nni_in engine stream is_mock status id o.nnis
    ok (record o { nnis = nnis; sent = o.sent ++ i ∷ [] })
  handle_olt_message accepts (OltMessage.pon_indication status id) o = do
    (pons, ts, is) ←
        switch_pon_in engine stream is_mock accepts status o.controlled_activation id o.pons
    ok (record o { pons = pons; spawned = o.spawned ++ ts; sent = o.sent ++ is })
  handle_olt_message accepts (OltMessage.alarm_indication a) o =
      ok (record o { sent = o.sent ++ Indication.alarm_ind a ∷ [] })
  handle_olt_message accepts (OltMessage.los_indication raised port) o =
      ok (record o { sent = o.sent ++ Indication.los_ind raised port ∷ [] })

  -- The loops of RestartOLT: every ONU of every PON port gets the event Disable.
  unfoldable pub disable_onus : List PonPort → Result (List PonPort × List (Sn × Task))
  disable_onus [] = ok ([], [])
  disable_onus (p ∷ ps) = do
    (r, onus, ts) ← on_each (fire engine stream is_mock OnuTx.disable) p.resources p.onus
    (ps', ts') ← disable_onus ps
    ok (record p { resources = r; onus = onus } ∷ ps', ts ++ ts')

  -- RestartOLT; the pauses and the gRPC server are not modelled. `false` is the error.
  unfoldable pub restart_olt : OltDevice → Result (Bool × OltDevice)
  restart_olt o0 = do
    (deleted, o1) ← fire_olt OltTx.delete (record o0 { previously_connected = false })
    if deleted
        then (do
          (pons, ts) ← disable_onus o1.pons
          channel ← close o1.channel
          fire_olt OltTx.initialize
              (record o1 { pons = pons; spawned = o1.spawned ++ ts; channel = channel }))
        else ok (false, o1)
