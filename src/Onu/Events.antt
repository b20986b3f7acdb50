-- ===== src/Onu/Events.antt =====
-- The events of an ONU's InternalState and their callbacks (internal/bbsim/devices/onu.go, CreateONU
-- and cleanupOnuState). The library sets the new state before it runs the `enter_` callbacks.
use g_simulator.Prelude.{ℕ, Bool, List, [], ◌∷◌, Option, none, some, if◌then◌else◌}
use g_simulator.Go.{Result, ok, Chan, buffered, ◌>>=◌, send, close}
use g_simulator.Fsm.{Engine, refused, stays, moves, EventError, invalid_event, no_transition}
use g_simulator.Oper.{OperTx, oper_event}
use g_simulator.Messages.{
  Message, OperStatus, onu_disc_indication, onu_indication, send_eapol_flow, send_dhcp_flow,
}
use g_simulator.Pon.{
  is_onu_id_allocated, store_onu_id, remove_onu_id, remove_alloc_ids_for_onu_sn,
  remove_gem_port_by_sn,
}
use g_simulator.Uni.{UniPort, PotsPort, Owner, disable_uni, disable_pots}
use g_simulator.Onu.Machine.{OnuState, OnuTx, onu_event}
use g_simulator.Onu.State.{Onu, World, process_onu_messages, owner_of, onu_channel_size}

-- `o.Channel <- msg`.
unfoldable pub tell : Message → World → Result World
tell msg w = do
  channel ← send w.onu.channel msg
  ok (record w { onu = record w.onu { channel = channel } })

-- cleanupOnuState.
unfoldable pub cleanup_onu_state : World → World
cleanup_onu_state w = record w {
  onu = record w.onu { flows = []; onu_alarms_info = [] };
  pon =
      remove_gem_port_by_sn
        (remove_alloc_ids_for_onu_sn (remove_onu_id w.pon w.onu.id) w.onu.serial_number)
        w.onu.serial_number;
}

module _ (engine : Engine) where
  -- `o.OperState.Event(tx)`, whose error is only logged.
  unfoldable pub fire_oper : OperTx → Onu → Onu
  fire_oper tx o = elim (oper_event engine o.oper_state tx) [
    | refused ↦ o
    | stays ↦ o
    | moves d ↦ record o { oper_state = d }
  ]

  -- The loops over the ports in `enter_disabled`, whose errors are only logged.
  unfoldable pub disable_unis :
      Owner → Chan Message → List UniPort → Result (Chan Message × List UniPort)
  disable_unis o channel [] = ok (channel, [])
  disable_unis o channel (u ∷ us) = do
    (_, channel', v) ← disable_uni engine o channel u
    (channel'', vs) ← disable_unis o channel' us
    ok (channel'', v ∷ vs)

  unfoldable pub disable_all_pots :
      Owner → Chan Message → List PotsPort → Result (Chan Message × List PotsPort)
  disable_all_pots o channel [] = ok (channel, [])
  disable_all_pots o channel (p ∷ ps) = do
    (_, channel', q) ← disable_pots engine o channel p
    (channel'', qs) ← disable_all_pots o channel' ps
    ok (channel'', q ∷ qs)

  -- `if len(o.FlowIds) == 0 { close(o.Channel) }`.
  unfoldable pub close_if_idle : List ℕ → Chan Message → Result (Chan Message)
  close_if_idle [] channel = close channel
  close_if_idle (_ ∷ _) channel = ok channel

  unfoldable pub enter_enabled : World → Result World
  enter_enabled w = elim (is_onu_id_allocated w.pon w.onu.id) [
    | some _ ↦ ok w
    | none ↦
        tell (onu_indication w.onu.serial_number w.onu.pon_port_id OperStatus.up)
          (record w { pon = store_onu_id w.pon w.onu.id w.onu.serial_number })
  ]

  module _ (stream : ℕ) (is_mock : Bool) where
    unfoldable pub enter_initialized : World → World
    unfolding fire_oper
    enter_initialized w = record w {
      onu = fire_oper OperTx.enable (record w.onu { channel = buffered onu_channel_size [] });
      spawned = if is_mock then w.spawned else process_onu_messages ∷ w.spawned;
    }

    -- `enter_disabled`, up to the indication.
    unfoldable pub stopped : World → World
    stopped w = let w' = cleanup_onu_state w in record w' { onu = fire_oper OperTx.disable w'.onu }

    -- `enter_disabled`, after the indication.
    unfoldable pub ports_down : World → Result World
    ports_down w = do
      (c1, unis) ← disable_unis (owner_of stream w.onu) w.onu.channel w.onu.uni_ports
      (c2, pots) ← disable_all_pots (owner_of stream w.onu) c1 w.onu.pots_ports
      c3 ← close_if_idle w.onu.flow_ids c2
      ok (record w { onu = record w.onu { uni_ports = unis; pots_ports = pots; channel = c3 } })

    unfoldable pub enter_disabled : World → Result World
    enter_disabled w0 = do
      let w = stopped w0
      w' ← tell (onu_indication w.onu.serial_number w.onu.pon_port_id OperStatus.down) w
      ports_down w'

    unfoldable pub enter_onu : OnuState → World → Result World
    unfolding enter_initialized enter_disabled enter_enabled
    enter_onu OnuState.initialized w = ok (enter_initialized w)
    enter_onu OnuState.discovered w = tell (onu_disc_indication OperStatus.up) w
    enter_onu OnuState.enabled w = enter_enabled w
    enter_onu OnuState.disabled w = enter_disabled w
    enter_onu OnuState.pon_disabled w = ok (cleanup_onu_state w)
    enter_onu OnuState.eapol_flow_sent w = tell send_eapol_flow w
    enter_onu OnuState.dhcp_flow_sent w = tell send_dhcp_flow w
    enter_onu _ w = ok w

    -- `o.InternalState.Event(tx)`.
    unfoldable pub fire_onu : OnuTx → World → Result (Option EventError × World)
    unfolding enter_onu
    fire_onu tx w = elim (onu_event engine w.onu.internal_state tx) [
      | refused ↦ ok (some invalid_event, w)
      | stays ↦ ok (some no_transition, w)
      | moves d ↦ do
        w' ← enter_onu d (record w { onu = record w.onu { internal_state = d } })
        ok (none, w')
    ]
