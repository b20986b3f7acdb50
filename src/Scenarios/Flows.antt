-- ===== src/Scenarios/Flows.antt =====
-- Flows of an ONU.
use Prim.Native.String.{String}
use g_simulator.Prelude.{Option, ℕ}
use g_simulator.Onu.Power.{handle_shutdown_onu}
use g_simulator.Onu.SecondShutdown.{handle_shutdown_onu-panics}
use g_simulator.Prelude.{◌≡◌, refl, true, false, [], ◌∷◌, none, arith}
use g_simulator.Go.{ok, panics, closed, send, close}
use g_simulator.Fsm.{table_engine}
use g_simulator.Messages.{Flow, OperStatus, onu_indication}
use g_simulator.Oper.{OperState, OperTx, oper_event-next}
use g_simulator.Onu.Machine.{OnuState, OnuTx, onu_event-next}
use g_simulator.Onu.State.{Onu, World}
use g_simulator.Onu.Events.{
  tell, cleanup_onu_state, fire_oper, disable_unis, disable_all_pots, close_if_idle, stopped,
  ports_down, enter_disabled, enter_onu, fire_onu,
}
use g_simulator.Onu.Flows.{with_first, add_flow_to_uni, handle_flow_add, handle_flow_remove}
use g_simulator.Onu.Flows.Removal.{remove-add}
use g_simulator.Onu.Flows.Faults.{handle_flow_remove-panics}
use g_simulator.Uni.{store_port_no, add_gem_port_to_service}
use g_simulator.Scenarios.Values.{uni0, onu1, sn1, bare_world}

abbrev lldp_flow : Flow
lldp_flow = record {
  flow_id = 12;
  replicate_flow = false;
  pbit_to_gemport = [];
  gemport_id = 1024;
  uni_id = 0;
  port_no = 16;
  eth_type = 0x88cc;
  o_vid = 900;
  i_vid = 900;
  src_port = 0;
  dst_port = 0;
  o_pbits = 0;
}

-- The ONU with one UNI that has no services.
abbrev quiet_onu : Onu
quiet_onu = record onu1 { uni_ports = record uni0 { services = [] } ∷ [] }

abbrev with_flow : Onu
with_flow = record quiet_onu { flow_ids = 12 ∷ [] }

quiet_onu-add : handle_flow_add table_engine lldp_flow quiet_onu ≡ ok with_flow
unfolding handle_flow_add with_first add_flow_to_uni store_port_no add_gem_port_to_service
quiet_onu-add = refl

remove-add_example : handle_flow_remove 12 with_flow ≡ ok quiet_onu
remove-add_example =
    remove-add table_engine lldp_flow quiet_onu with_flow quiet_onu-add refl (λ e. ground arith)

-- The ONU without ports when it is down.
abbrev shut : World
shut =
    let w =
      cleanup_onu_state (record bare_world {
        onu = record bare_world.onu { internal_state = OnuState.disabled };
      }) in
    record w {
      onu = record w.onu {
        oper_state = OperState.down;
        channel = closed (onu_indication sn1 0 OperStatus.down ∷ []);
      };
    }

bare_world-disable : fire_onu table_engine 7 true OnuTx.disable bare_world ≡ ok (none, shut)
unfolding fire_onu enter_onu enter_disabled stopped ports_down tell fire_oper disable_unis
    disable_all_pots close_if_idle send close cleanup_onu_state
bare_world-disable = ground (
  arith,
  onu_event-next table_engine OnuState.enabled OnuTx.disable,
  oper_event-next table_engine OperState.up OperTx.disable,
)

handle_flow_remove-panics_example : handle_flow_remove 12 shut.onu ≡ panics
handle_flow_remove-panics_example =
    handle_flow_remove-panics table_engine 7 true bare_world (none, shut) 12 refl bare_world-disable
      refl

abbrev no_atoi : String → Option ℕ
no_atoi s = none

handle_shutdown_onu-panics_example : handle_shutdown_onu table_engine 7 true no_atoi shut ≡ panics
unfolding cleanup_onu_state
handle_shutdown_onu-panics_example =
    handle_shutdown_onu-panics table_engine 7 true no_atoi bare_world (none, shut) refl
      bare_world-disable refl (record { taken = []; is_received = refl })
