-- ===== src/Olt/Exclusive.antt =====
-- GEM ports and alloc ids stay exclusive to one ONU of a PON under every request of the controller and
-- every message of the OLT's channel (internal/bbsim/devices/olt.go).
mod Requests
mod Lifecycle
use g_simulator.Prelude.{
  inl, inr, false, suc, ℕ, Bool, List, [], ◌∷◌, ◌++◌, Option, none, some, if◌then◌else◌, map,
}
use g_simulator.Prelude.Map
use g_simulator.Go.{
  Result, ok, ◌>>=◌, deref, send, close, Ensures, Ensures-bind, Ensures-any, Ensures-if,
  Ensures-option,
}
use g_simulator.Fsm.{outcome_intro, Engine, Outcome, refused, stays, moves, Outcome-cases}
use g_simulator.Messages.{OperStatus, OnuPacket}
use g_simulator.Omci.Packet.{OmciMessage}
use g_simulator.Onu.State.{World}
use g_simulator.Onu.Machine.{OnuState}
use g_simulator.Oper.{oper_event, OperTx}
use g_simulator.Olt.Machines.{PonState, OltState, OltTx, olt_event}
use g_simulator.Olt.Ids.{activate_ids}
use g_simulator.Olt.Ids.Exclusive.{
  IsExclusive, activate_ids-IsExclusive, renewed-IsExclusive, empty-IsExclusive,
}
use g_simulator.Olt.State.{
  los_indication, is_disabled_state, olt_indication, pon_indication, PonPort, OltFlow, OltDevice,
  OltMessage, Indication, get_pon_by_id, get_onu_by_id,
}
use g_simulator.Olt.Flows.{with_onu, flow_add_olt, flow_remove_olt}
use g_simulator.Olt.Flows.Exclusive.{
  HasExclusiveIds, flow_add-HasExclusiveIds, flow_remove-HasExclusiveIds,
}
use g_simulator.Olt.Requests.{
  has_interface, interface_id_to_port_no, same_pon_state, Interface, tell_olt, activate_onu,
  delete_onu, OmciOutError, omci_msg_out, onu_packet_out_olt, tell_pons, disable_olt, reenable_olt,
  switch_pon_if, set_olt_alarm, at_pon,
}
use g_simulator.Olt.Ports.{oper_tx, switch_nni_in, switch_pon_in}
use g_simulator.Olt.Lifecycle.{
  init_ids, first_nni_down, init_olt, clear_all_resources, enter_olt, fire_olt, fire_olt_oper,
  olt_tx, handle_olt_message, disable_onus, restart_olt,
}
use g_simulator.Olt.Exclusive.Requests.{
  tell_olt-HasExclusiveIds, tell_pons-HasExclusiveIds, activate_onu-HasExclusiveIds,
  delete_onu-HasExclusiveIds, omci_msg_out-HasExclusiveIds, onu_packet_out-HasExclusiveIds,
  disable_olt-HasExclusiveIds, reenable_olt-HasExclusiveIds, switch_pon_if-HasExclusiveIds,
  set_olt_alarm-HasExclusiveIds,
}
use g_simulator.Olt.Exclusive.Lifecycle.{
  init_ids-HasExclusiveIds, init_olt-HasExclusiveIds, enter_olt-HasExclusiveIds,
  fire_olt-HasExclusiveIds, restart_olt-HasExclusiveIds, fire_olt_oper-HasExclusiveIds,
  message-HasExclusiveIds,
}

-- What can happen to the OLT.
pub data Request : Type 0 where
  add_flow remove_flow : OltFlow → Request
  activate : ℕ → ℕ → List ℕ → Request
  remove_onu : ℕ → ℕ → Request
  omci_out : ℕ → ℕ → Option OmciMessage → Request
  packet_out : ℕ → ℕ → Option OnuPacket → Request
  disable reenable restart : Request
  switch_if : OperStatus → ℕ → Request
  alarm : ℕ → Interface → Bool → Request
  -- processOltMessages takes a message from the channel.
  message : OltMessage → Request

dropped : {E : Type 0} → Result (E × OltDevice) → Result OltDevice
dropped r = r >>= λ (_, o). ok o

dropped-HasExclusiveIds :
    {E : Type 0} (r : Result (E × OltDevice))
    → Ensures (λ q. HasExclusiveIds q.1) r
    → Ensures HasExclusiveIds (dropped r)
unfolding dropped
dropped-HasExclusiveIds (ok (e, o)) h = h
dropped-HasExclusiveIds Result.blocks h = tt
dropped-HasExclusiveIds Result.panics h = tt

module _ (engine : Engine) (stream : ℕ) (is_mock : Bool) (accepts : Indication → Bool) where
  pub handle_request : Request → OltDevice → Result OltDevice
  unfolding dropped
  handle_request (add_flow f) o = dropped (flow_add_olt f o)
  handle_request (remove_flow f) o = dropped (flow_remove_olt f o)
  handle_request (activate i n vs) o = activate_onu engine stream is_mock i n vs o
  handle_request (remove_onu i n) o = delete_onu engine stream is_mock i n o
  handle_request (omci_out i n parsed) o = dropped (omci_msg_out i n parsed o)
  handle_request (packet_out i n read) o = onu_packet_out_olt i n read o
  handle_request disable o = disable_olt o
  handle_request reenable o = reenable_olt o
  handle_request restart o = dropped (restart_olt engine stream is_mock o)
  handle_request (switch_if status i) o = switch_pon_if status i o
  handle_request (alarm i kind raised) o = dropped (set_olt_alarm i kind raised o)
  handle_request (message m) o = handle_olt_message engine stream is_mock accepts m o

  pub handle_all : List Request → OltDevice → Result OltDevice
  handle_all [] o = ok o
  handle_all (r ∷ rs) o = do o' ← handle_request r o; handle_all rs o'

  request-HasExclusiveIds :
      (r : Request) (o : OltDevice)
      → HasExclusiveIds o
      → Ensures HasExclusiveIds (handle_request r o)
  unfolding handle_request
  request-HasExclusiveIds (add_flow f) o x =
      dropped-HasExclusiveIds _ (flow_add-HasExclusiveIds f o x)
  request-HasExclusiveIds (remove_flow f) o x =
      dropped-HasExclusiveIds _ (flow_remove-HasExclusiveIds f o x)
  request-HasExclusiveIds (activate i n vs) o x =
      activate_onu-HasExclusiveIds engine stream is_mock i n vs o x
  request-HasExclusiveIds (remove_onu i n) o x =
      delete_onu-HasExclusiveIds engine stream is_mock i n o x
  request-HasExclusiveIds (omci_out i n parsed) o x =
      dropped-HasExclusiveIds _ (omci_msg_out-HasExclusiveIds i n parsed o x)
  request-HasExclusiveIds (packet_out i n read) o x = onu_packet_out-HasExclusiveIds i n read o x
  request-HasExclusiveIds disable o x = disable_olt-HasExclusiveIds o x
  request-HasExclusiveIds reenable o x = reenable_olt-HasExclusiveIds o x
  request-HasExclusiveIds restart o x =
      dropped-HasExclusiveIds _ (restart_olt-HasExclusiveIds engine stream is_mock o x)
  request-HasExclusiveIds (switch_if status i) o x = switch_pon_if-HasExclusiveIds status i o x
  request-HasExclusiveIds (alarm i kind raised) o x =
      dropped-HasExclusiveIds _ (set_olt_alarm-HasExclusiveIds i kind raised o x)
  request-HasExclusiveIds (message m) o x =
      message-HasExclusiveIds engine stream is_mock accepts m o x

  -- After any sequence of requests of the controller and messages of the OLT's channel that returns, no
  -- two ONUs of a PON have the same GEM port or the same alloc id, if this was so before.
  pub handle_all-HasExclusiveIds :
      (rs : List Request) (o : OltDevice)
      → HasExclusiveIds o
      → Ensures HasExclusiveIds (handle_all rs o)
  unfolding handle_all
  handle_all-HasExclusiveIds [] o x = x
  handle_all-HasExclusiveIds (r ∷ rs) o x =
      Ensures-bind HasExclusiveIds HasExclusiveIds (handle_request r o) (handle_all rs)
        (request-HasExclusiveIds r o x) (λ o' x'. handle_all-HasExclusiveIds rs o' x')
