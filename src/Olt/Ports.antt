-- ===== src/Olt/Ports.antt =====
-- The PON ports' machines with their callbacks (internal/bbsim/devices/pon.go, CreatePonPort), and what
-- the messages PonIndication and NniIndication do to a port (internal/bbsim/devices/olt.go:
-- processOltMessages, sendPonIndication, sendNniIndication). The library sets the new state before it
-- runs the `enter_` callbacks.
use g_simulator.Prelude.{ℕ, Bool, List, [], ◌∷◌, ◌++◌, none, some, ◌==◌, if◌then◌else◌}
use g_simulator.Prelude.Map.{nat_eq}
use g_simulator.Go.{Result, ok, panics, ◌>>=◌}
use g_simulator.Fsm.{Engine, refused, stays, moves}
use g_simulator.Messages.{Sn, OperStatus}
use g_simulator.Oper.{OperState, OperTx, oper_event}
use g_simulator.Pon.{Resources}
use g_simulator.Onu.Machine.{OnuState, OnuTx}
use g_simulator.Onu.State.{Onu, World, Task}
use g_simulator.Onu.Events.{fire_onu}
use g_simulator.Olt.Machines.{PonState, PonTx, pon_event}
use g_simulator.Olt.State.{PonPort, NniPort, Mode, Indication}
use g_simulator.Olt.Requests.{Changed, on_one, fire}

-- A loop over the ONUs of a PON port.
unfoldable pub on_each : (World → Result World) → Resources → List Onu → Result Changed
on_each f p [] = ok (p, [], [])
on_each f p (o ∷ os) = do
  (p1, o', ts) ← on_one f p o
  (p2, os', ts') ← on_each f p1 os
  ok (p2, o' ∷ os', ts ++ ts')

-- `stream.Send` of several indications one after the other, up to the first that fails.
unfoldable pub sends : (Indication → Bool) → List Indication → List Indication
sends accepts [] = []
sends accepts (i ∷ is) = if accepts i then i ∷ sends accepts is else i ∷ []

-- sendPonIndication, called when the OperState of the port has changed.
unfoldable pub pon_indications : ℕ → OperState → List Indication
pon_indications id s = Indication.intf_ind id s ∷ Indication.pon_oper_ind id s ∷ []

abbrev pub oper_tx : OperStatus → OperTx
oper_tx OperStatus.up = OperTx.enable
oper_tx OperStatus.down = OperTx.disable

abbrev pub pon_tx : OperStatus → PonTx
pon_tx OperStatus.up = PonTx.enable
pon_tx OperStatus.down = PonTx.disable

module _ (engine : Engine) (stream : ℕ) (is_mock : Bool) where
  -- The event Initialize and, unless it fails, the event Discover.
  unfoldable pub initialize_and_discover : World → Result World
  unfolding fire
  initialize_and_discover w = do
    (err, w') ← fire_onu engine stream is_mock OnuTx.initialize w
    elim err [ some _ ↦ ok w' | none ↦ fire engine stream is_mock OnuTx.discover w' ]

  -- What `enter_enabled` does to an ONU of a port that was disabled, by the ONU's state.
  unfoldable pub bring_back_from : OnuState → World → Result World
  unfolding initialize_and_discover
  bring_back_from OnuState.pon_disabled w = fire engine stream is_mock OnuTx.enable w
  bring_back_from OnuState.disabled w = initialize_and_discover w
  bring_back_from OnuState.initialized w = fire engine stream is_mock OnuTx.discover w
  bring_back_from _ w = ok w

  unfoldable pub bring_back : World → Result World
  unfolding bring_back_from
  bring_back w = bring_back_from w.onu.internal_state w

  -- `enter_enabled`, by the state before and the mode.
  unfoldable pub enter_pon_enabled : PonState → Mode → Resources → List Onu → Result Changed
  unfolding on_each initialize_and_discover bring_back
  enter_pon_enabled PonState.created Mode.default_mode p os = on_each initialize_and_discover p os
  enter_pon_enabled PonState.created Mode.only_pon p os = on_each initialize_and_discover p os
  enter_pon_enabled PonState.disabled Mode.only_onu p os =
      on_each (fire engine stream is_mock OnuTx.initialize) p os
  enter_pon_enabled PonState.disabled Mode.both p os =
      on_each (fire engine stream is_mock OnuTx.initialize) p os
  enter_pon_enabled PonState.disabled _ p os = on_each bring_back p os
  enter_pon_enabled _ _ p os = ok (p, os, [])

  unfoldable pub take_down_from : OnuState → World → Result World
  take_down_from OnuState.initialized w = ok w
  take_down_from OnuState.disabled w = ok w
  take_down_from _ w = fire engine stream is_mock OnuTx.pon_disable w

  -- What `enter_disabled` does to an ONU.
  unfoldable pub take_down : World → Result World
  unfolding take_down_from
  take_down w = take_down_from w.onu.internal_state w

  unfoldable pub enter_pon : PonState → PonState → Mode → Resources → List Onu → Result Changed
  unfolding enter_pon_enabled take_down
  enter_pon src PonState.enabled mode p os = enter_pon_enabled src mode p os
  enter_pon src PonState.disabled mode p os = on_each take_down p os
  enter_pon src PonState.created mode p os = ok (p, os, [])

  -- `pon.InternalState.Event(tx)`, whose error is only logged.
  unfoldable pub fire_pon : PonTx → Mode → PonPort → Result (PonPort × List (Sn × Task))
  unfolding enter_pon
  fire_pon tx mode p = elim (pon_event engine p.internal_state tx) [
    | refused ↦ ok (p, [])
    | stays ↦ ok (p, [])
    | moves d ↦ do
      (r, onus, ts) ← enter_pon p.internal_state d mode p.resources p.onus
      ok (record p { internal_state = d; resources = r; onus = onus }, ts)
  ]

  -- `pon.OperState.Event(tx)`, whose error is only logged.
  unfoldable pub fire_pon_oper : (Indication → Bool) → OperTx → PonPort → PonPort × List Indication
  unfolding pon_indications sends
  fire_pon_oper accepts tx p = elim (oper_event engine p.oper_state tx) [
    | refused ↦ (p, [])
    | stays ↦ (p, [])
    | moves d ↦ (record p { oper_state = d }, sends accepts (pon_indications p.id d))
  ]

  -- The case PonIndication at the port.
  unfoldable pub switch_pon :
      (Indication → Bool)
      → OperStatus
      → Mode
      → PonPort
      → Result (PonPort × List (Sn × Task) × List Indication)
  unfolding fire_pon_oper
  switch_pon accepts status mode p = do
    let (p', is) = fire_pon_oper accepts (oper_tx status) p
    (p'', ts) ← fire_pon (pon_tx status) mode p'
    ok (p'', ts, is)

  -- The same at the first port with an id; there is none, the port is nil.
  unfoldable pub switch_pon_in :
      (Indication → Bool)
      → OperStatus
      → Mode
      → ℕ
      → List PonPort
      → Result (List PonPort × List (Sn × Task) × List Indication)
  switch_pon_in accepts status mode id [] = panics
  switch_pon_in accepts status mode id (p ∷ ps) =
      let rest = switch_pon_in accepts status mode id ps in
      if p.id == id
      then (do (p', ts, is) ← switch_pon accepts status mode p; ok (p' ∷ ps, ts, is))
      else (do (ps', ts, is) ← rest; ok (p ∷ ps', ts, is))

  -- sendNniIndication: the state of the port after the event.
  unfoldable pub switch_nni : OperStatus → NniPort → NniPort
  switch_nni status n = elim (oper_event engine n.oper_state (oper_tx status)) [
    | refused ↦ n
    | stays ↦ n
    | moves d ↦ record n { oper_state = d }
  ]

  unfoldable pub switch_nni_in : OperStatus → ℕ → List NniPort → Result (List NniPort × Indication)
  unfolding switch_nni
  switch_nni_in status id [] = panics
  switch_nni_in status id (n ∷ ns) =
      let rest = switch_nni_in status id ns in
      if n.id == id
      then (let m = switch_nni status n in ok (m ∷ ns, Indication.nni_oper_ind m.id m.oper_state))
      else (do (ns', i) ← rest; ok (n ∷ ns', i))
