-- ===== src/Onu/Messages.antt =====
-- The goroutine that handles the messages of an ONU's channel (internal/bbsim/devices/onu.go,
-- ProcessOnuMessages).
pub mod Sending
pub mod Ends
pub mod Stops
pub mod Alarms
use g_simulator.Prelude.{
  ℕ, zero, suc, ◌+◌, Bool, true, false, List, [], ◌∷◌, ◌++◌, Option, none, some, ◌==◌,
  if◌then◌else◌, u8,
}
use g_simulator.Prelude.Map
use g_simulator.Go.{Result, ok, panics, Chan, unmade, buffered, received, closed, ◌>>=◌, send}
use g_simulator.Fsm.{Engine}
use g_simulator.Oper.{OperState}
use g_simulator.Messages.{
  Sn, Message, OperStatus, UniStatusAlarm, Flow, OnuPacket, onu_disc_indication, onu_indication,
  uni_status_alarm, omci, flow_add, flow_removed, onu_packet_out, send_eapol_flow, send_dhcp_flow,
}
use g_simulator.Omci.EntityId.{equals}
use g_simulator.Omci.Responses.{
  Library, OnuAlarmInfoMapKey, OnuAlarmInfo, pptp_class_id, alarm_key_eq,
}
use g_simulator.Omci.Alarms.{Notifier, no_alarms, create_uni_status_alarm}
use g_simulator.Uni.{UniPort, ethernet_type_eapol, ethernet_type_ipv4}
use g_simulator.Onu.Machine.{OnuState}
use g_simulator.Onu.State.{Onu, World, retry_discovery}
use g_simulator.Onu.Counters.{increment_alarm_sequence_number}
use g_simulator.Onu.Flows.{find_uni_by_port_no, with_first, handle_flow_add, handle_flow_remove}
use g_simulator.Onu.Omci.{handle_omci_request, send_omci_indication}
use g_simulator.Onu.Messages.Sending.{
  Running, send_onu_disc_indication, send_onu_indication, handle_uni_status_alarm,
  send_eapol_flow_to_olt, send_dhcp_flow_to_olt,
}

-- `uni.PacketCh <- msg`.
unfoldable pub forward_packet : OnuPacket → UniPort → Result UniPort
forward_packet p u = do c ← send u.packet_ch p; ok (record u { packet_ch = c })

-- What `<-o.Channel` finds: nothing yet, a message and the rest, or that the channel is closed.
pub data Received : Type 0 where
  waiting : Received
  taken : Message → Chan Message → Received
  shut : Received

unfoldable pub receive : Chan Message → Received
receive (buffered cap (m ∷ held)) = taken m (buffered cap held)
receive (closed (m ∷ held)) = taken m (closed held)
receive (closed []) = shut
receive _ = waiting

-- Does the goroutine go on after a message, or does it return?
pub data Turn : Type 0 where
  continues : Running → Turn
  returns : Running → Turn

-- How ProcessOnuMessages ends: a context is done, the channel is closed, or `return`.
pub data End : Type 0 where
  canceled channel_closed returned : End

module _ (engine : Engine) (stream : ℕ) (is_mock : Bool) (lib : Library) (publish_events : Bool)
    (delivers : World → Bool) (notifier : Notifier) (client : Option (Flow → Bool)) where
  -- An operation on the ONU, after which the goroutine goes on.
  unfoldable pub on_onu : (Onu → Result Onu) → Running → Result Turn
  on_onu f r = do
    o ← f r.world.onu
    ok (continues (record r { world = record r.world { onu = o } }))

  -- The case OnuPacketOut.
  unfoldable pub handle_onu_packet_out : OnuPacket → Running → Result Turn
  unfolding on_onu
  handle_onu_packet_out p r = elim (find_uni_by_port_no p.port_no r.world.onu) [
    | none ↦ ok (returns r)
    | some _ ↦
        on_onu
          (λ o. do
            unis ← with_first (λ u. u.port_no == p.port_no) (forward_packet p) o.uni_ports
            ok (record o { uni_ports = unis }))
          r
  ]

  -- The switch of ProcessOnuMessages, less the cases OnuPacketIn and OmciIndication.
  unfoldable pub handle_message : Message → Running → Result Turn
  unfolding on_onu handle_onu_packet_out
  handle_message (onu_disc_indication status) r =
      ok (continues (send_onu_disc_indication delivers r))
  handle_message (onu_indication sn port status) r =
      ok (continues (send_onu_indication delivers status r))
  handle_message (omci m) r = do
    (_, w) ← handle_omci_request lib m engine stream is_mock publish_events r.world
    ok (continues (record r { world = w }))
  handle_message (uni_status_alarm a) r =
      ok (continues (record r { world = handle_uni_status_alarm delivers notifier a r.world }))
  handle_message (flow_add f) r = on_onu (handle_flow_add engine f) r
  handle_message (flow_removed f) r = on_onu (handle_flow_remove f.flow_id) r
  handle_message (onu_packet_out p) r = handle_onu_packet_out p r
  handle_message send_eapol_flow r = do r' ← send_eapol_flow_to_olt client r; ok (continues r')
  handle_message send_dhcp_flow r = do r' ← send_dhcp_flow_to_olt client r; ok (continues r')

  -- ProcessOnuMessages; a context is done after so many messages, or while no message is there.
  unfoldable pub process_messages : ℕ → Running → Result (End × Running)
  process_messages zero r = ok (canceled, r)
  process_messages (suc n) r = elim (receive r.world.onu.channel) [
    | waiting ↦ ok (canceled, r)
    | shut ↦ ok (channel_closed, r)
    | taken m channel ↦ do
      t ←
          handle_message m
            (record r { world = record r.world { onu = record r.world.onu { channel = channel } } })
      elim t [ continues s ↦ process_messages n s | returns s ↦ ok (returned, s) ]
  ]
