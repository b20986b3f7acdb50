-- ===== src/Onu/Messages/Sending.antt =====
-- What the goroutine of an ONU sends: indications to the stream, and flows to the OLT in the place of a
-- controller (internal/bbsim/devices/onu.go: sendOnuDiscIndication, sendOnuIndication, the case
-- UniStatusAlarm of ProcessOnuMessages, sendEapolFlow, sendDhcpFlow).
use g_simulator.Prelude.{
  ℕ, ◌+◌, Bool, false, List, [], ◌∷◌, ◌++◌, Option, none, some, if◌then◌else◌, u8,
}
use g_simulator.Prelude.Map
use g_simulator.Go.{Result, ok, panics}
use g_simulator.Oper.{OperState}
use g_simulator.Messages.{Sn, OperStatus, UniStatusAlarm, Flow}
use g_simulator.Omci.EntityId.{equals}
use g_simulator.Omci.Responses.{OnuAlarmInfoMapKey, OnuAlarmInfo, pptp_class_id, alarm_key_eq}
use g_simulator.Omci.Alarms.{Notifier, no_alarms, create_uni_status_alarm}
use g_simulator.Uni.{ethernet_type_eapol, ethernet_type_ipv4}
use g_simulator.Onu.Machine.{OnuState}
use g_simulator.Onu.State.{Onu, World, retry_discovery}
use g_simulator.Onu.Counters.{increment_alarm_sequence_number}
use g_simulator.Onu.Omci.{send_omci_indication}

-- The indications of an ONU other than OMCI: `onu_ind` has the port, the ONU id, the status, and the
-- OperState that it gives as AdminState.
pub data StreamIndication : Type 0 where
  onu_disc_ind : ℕ → Sn → StreamIndication
  onu_ind : ℕ → ℕ → OperStatus → OperState → Sn → StreamIndication

-- The goroutine: the ONU with what is around it, the indications that the stream took (the OMCI
-- indications are in the world), and the flows that the client took, oldest first.
pub record Running : Type 0 where
  pub world : World
  pub sent : List StreamIndication
  pub requested : List Flow

-- Does `stream.Send` return without error?
module _ (delivers : World → Bool) where
  -- sendOnuDiscIndication, up to the goroutine that it starts.
  unfoldable pub send_onu_disc_indication : Running → Running
  send_onu_disc_indication r =
      let w = r.world in
      if delivers w
      then record r {
        sent = r.sent ++ onu_disc_ind w.onu.pon_port_id w.onu.serial_number ∷ [];
        world = record w { spawned = retry_discovery ∷ w.spawned };
      }
      else r

  -- The goroutine that sendOnuDiscIndication starts, after the delay.
  unfoldable pub retry_onu_discovery : Running → Running
  retry_onu_discovery r = elim r.world.onu.internal_state [
    | OnuState.discovered ↦ send_onu_disc_indication r
    | _ ↦ r
  ]

  -- sendOnuIndication.
  unfoldable pub send_onu_indication : OperStatus → Running → Running
  send_onu_indication status r =
      let o = r.world.onu in
      if delivers r.world
      then record r {
        sent = r.sent ++ onu_ind o.pon_port_id o.id status o.oper_state o.serial_number ∷ [];
      }
      else r

  module _ (notifier : Notifier) where
    -- The case UniStatusAlarm, once the packet is made; `info` is the entity's entry.
    unfoldable pub note_alarm : OnuAlarmInfoMapKey → OnuAlarmInfo → List ℕ → List ℕ → World → World
    note_alarm key info pkt bits w =
        let n = if delivers w then info.sequence_no else u8 (info.sequence_no + 255) in
        let v = send_omci_indication pkt w in
        record v {
          onu = record v.onu {
            onu_alarms_info =
                if equals bits no_alarms
                then Map.delete key v.onu.onu_alarms_info
                else Map.insert key (record { sequence_no = n; alarm_bit_map = bits })
                    v.onu.onu_alarms_info;
          };
        }

    -- The case UniStatusAlarm.
    unfoldable pub handle_uni_status_alarm : UniStatusAlarm → World → World
    unfolding note_alarm
    handle_uni_status_alarm msg w =
        let key : OnuAlarmInfoMapKey = record {
          me_instance = msg.entity_id;
          me_class_id = pptp_class_id;
        } in
        let (n, o) = increment_alarm_sequence_number key w.onu in
        let v = record w { onu = o } in
        let info : OnuAlarmInfo = elim (Map.lookup key o.onu_alarms_info) [
          | some i ↦ i
          | none ↦ record { sequence_no = 0; alarm_bit_map = no_alarms }
        ] in
        let (made, bits) = create_uni_status_alarm notifier msg.raise_omci_alarm msg.entity_id n in
        elim made [ none ↦ v | some pkt ↦ note_alarm key info pkt bits v ]

-- The flow with the ids of the ONU that both functions below ask for, without its classifier.
abbrev plain_flow : Onu → Flow
plain_flow o = record {
  flow_id = o.id;
  replicate_flow = false;
  pbit_to_gemport = [];
  gemport_id = o.id;
  uni_id = 0;
  port_no = o.id;
  eth_type = 0;
  o_vid = 0;
  i_vid = 0;
  src_port = 0;
  dst_port = 0;
  o_pbits = 0;
}

-- `client.FlowAdd`: nil outside the emulated controller, else does the call return without error?
module _ (client : Option (Flow → Bool)) where
  -- Fatalf ends the program.
  request_flow : Flow → Running → Result Running
  request_flow f r = elim client [
    | none ↦ panics
    | some accepts ↦
        if accepts f then ok (record r { requested = r.requested ++ f ∷ [] }) else panics
  ]

  -- sendEapolFlow.
  unfoldable pub send_eapol_flow_to_olt : Running → Result Running
  unfolding request_flow
  send_eapol_flow_to_olt r =
      request_flow
        (record (plain_flow r.world.onu) { eth_type = ethernet_type_eapol; o_vid = 4091 }) r

  -- sendDhcpFlow: the index of a slice without elements panics.
  unfoldable pub send_dhcp_flow_to_olt : Running → Result Running
  unfolding request_flow
  send_dhcp_flow_to_olt r = elim r.world.onu.uni_ports [
    | [] ↦ panics
    | u ∷ _ ↦ elim u.services [
      | [] ↦ panics
      | hsia ∷ _ ↦
          request_flow
            (record (plain_flow r.world.onu) {
              eth_type = ethernet_type_ipv4;
              src_port = 68;
              dst_port = 67;
              o_vid = hsia.c_tag;
              o_pbits = 255;
            })
            r
    ]
  ]
