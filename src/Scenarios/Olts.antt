-- ===== src/Scenarios/Olts.antt =====
-- The theorems on the OLT at a PON port with two ONUs.
use g_simulator.Prelude.{All, ◌≡◌, refl, true, false, none, some, [], ◌∷◌, ◌==◌, List, arith}
use g_simulator.Prelude.Map
use g_simulator.Prelude.Map.{nat_eq}
use g_simulator.Go.{panics, received, Ensures, Yields}
use g_simulator.Fsm.{table_engine}
use g_simulator.Oper.{OperState}
use g_simulator.Onu.State.{Onu}
use g_simulator.Olt.Machines.{PonState, OltState}
use g_simulator.Olt.Ids.{is_taken, Ids}
use g_simulator.Olt.Ids.Entries.{unis_of}
use g_simulator.Olt.Ids.Usage.{
  Usage, Op, store, free, activate, Refines, Agrees, performed_all, specified_all,
}
use g_simulator.Olt.Ids.Refines.{performed_all-Agrees}
use g_simulator.Olt.State.{get_onu_by_id, get_pon_by_id, PonPort, Mode, OltFlow, OltDevice}
use g_simulator.Olt.Flows.{validate_flow, flow_add_olt}
use g_simulator.Olt.Flows.Exclusive.{HasExclusiveIds}
use g_simulator.Olt.Flows.Faults.{flow_add_olt-panics}
use g_simulator.Olt.Ids.Exclusive.{IsExclusive}
use g_simulator.Olt.Exclusive
use g_simulator.Olt.Exclusive.{handle_all, handle_all-HasExclusiveIds}
use g_simulator.Olt.PonCycle.Down.{IsRunning}
use g_simulator.Olt.PonCycle.{IsCycled, cycle, cycle-IsCycled}
use g_simulator.Scenarios.Values.{onu1, sn2, pon0}

abbrev onu2 : Onu
onu2 = record onu1 { id = 2; serial_number = sn2 }

abbrev port1 : PonPort
port1 = record {
  id = 0;
  internal_state = PonState.enabled;
  oper_state = OperState.up;
  onus = onu1 ∷ onu2 ∷ [];
  resources = pon0;
}

abbrev bare_ids : Ids
bare_ids = (0, []) ∷ []

abbrev olt1 : OltDevice
olt1 = record {
  internal_state = OltState.enabled;
  oper_state = OperState.up;
  channel = received [];
  flows = [];
  controlled_activation = Mode.default_mode;
  previously_connected = true;
  enable_perf = false;
  pons = port1 ∷ [];
  nnis = record { id = 0; oper_state = OperState.up } ∷ [];
  alloc_ids = bare_ids;
  gem_port_ids = bare_ids;
  spawned = [];
  sent = [];
}

abbrev flow1 : OltFlow
flow1 = record {
  flow = record {
    flow_id = 5;
    replicate_flow = false;
    pbit_to_gemport = [];
    gemport_id = 1024;
    uni_id = 0;
    port_no = 16;
    eth_type = 0x0800;
    o_vid = 900;
    i_vid = 900;
    src_port = 68;
    dst_port = 67;
    o_pbits = 0;
  };
  access_intf_id = 0;
  onu_id = 1;
  alloc_id = 1024;
  is_multicast = false;
}

abbrev usage1 : Usage
usage1 = record { has_pon = λ p. 0 == p; knows = λ p n. false; uses = λ p n u g k. false }

usage1-Refines : Refines bare_ids usage1
unfolding Map.lookup
usage1-Refines = record {
  has_pon = λ p. ground arith;
  knows = λ p n. ground arith;
  uses = λ p n u g k. ground arith;
  tidy = λ p n u g. ground arith;
}

abbrev ops1 : List Op
ops1 = activate 0 1 ∷ store 0 1 16 1024 5 ∷ free 5 ∷ store 0 2 16 1024 6 ∷ []

performed_all-Agrees_example : Agrees (performed_all ops1 bare_ids) (specified_all ops1 usage1)
performed_all-Agrees_example = performed_all-Agrees ops1 bare_ids usage1 usage1-Refines

bare_ids-IsExclusive : IsExclusive bare_ids
unfolding Map.lookup
bare_ids-IsExclusive p n n' u u' g h h' = ground arith

olt1-HasExclusiveIds : HasExclusiveIds olt1
olt1-HasExclusiveIds = record { gems = bare_ids-IsExclusive; allocs = bare_ids-IsExclusive }

abbrev requests1 : List Exclusive.Request
requests1 =
    Exclusive.Request.activate 0 1 (0 ∷ 0 ∷ 0 ∷ 1 ∷ [])
    ∷ Exclusive.Request.add_flow flow1
    ∷ Exclusive.Request.add_flow (record flow1 { onu_id = 2 })
    ∷ Exclusive.Request.remove_flow flow1
    ∷ []

handle_all-HasExclusiveIds_example :
    Ensures HasExclusiveIds (handle_all table_engine 7 true (λ i. true) requests1 olt1)
handle_all-HasExclusiveIds_example =
    handle_all-HasExclusiveIds table_engine 7 true (λ i. true) requests1 olt1 olt1-HasExclusiveIds

onu1-IsRunning : IsRunning onu1
onu1-IsRunning = record {
  accepts = refl;
  has_room = record { cap = 2048; held = []; is_buffered = refl; room = omega arith };
}

port1-IsRunning : All IsRunning port1.onus
port1-IsRunning = (
  onu1-IsRunning,
  (
    record {
      accepts = refl;
      has_room = record { cap = 2048; held = []; is_buffered = refl; room = omega arith };
    },
    tt,
  ),
)

cycle-IsCycled_example :
    Yields (IsCycled table_engine 7 true port1) (cycle table_engine 7 true Mode.default_mode port1)
cycle-IsCycled_example =
    cycle-IsCycled table_engine 7 true Mode.default_mode port1 tt refl port1-IsRunning (omega arith)

port1-found : get_pon_by_id 0 olt1 ≡ some port1
unfolding get_pon_by_id
port1-found = refl

onu1-found : get_onu_by_id 1 port1 ≡ some onu1
unfolding get_onu_by_id
onu1-found = refl

flow1-valid : validate_flow flow1 olt1 ≡ none
unfolding validate_flow is_taken Map.lookup Map.any_entry
flow1-valid = refl

not_activated : unis_of 0 1 olt1.alloc_ids ≡ none
unfolding Map.lookup
not_activated = refl

flow_add_olt-panics_example : flow_add_olt flow1 olt1 ≡ panics
flow_add_olt-panics_example =
    flow_add_olt-panics flow1 olt1 port1 onu1 (omega arith) refl port1-found onu1-found refl
      flow1-valid not_activated
