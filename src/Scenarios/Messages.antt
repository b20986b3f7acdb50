-- ===== src/Scenarios/Messages.antt =====
-- The goroutine that handles the messages of an ONU.
use g_simulator.Omci.Responses.{OnuAlarmInfoMapKey, alarm_key_eq}
use g_simulator.Onu.Messages.Stops.{tell_all, left_with, process_messages-stops}
use g_simulator.Onu.Flows.{find_uni_by_port_no}
use g_simulator.Onu.Messages.{returned, process_messages}
use g_simulator.Onu.Messages.Sending.{handle_uni_status_alarm, Running}
use g_simulator.Messages.{
  Message, onu_packet_out, OnuPacket, send_eapol_flow, uni_status_alarm, UniStatusAlarm,
}
use g_simulator.Omci.EntityId.{equals}
use g_simulator.Onu.Messages.Alarms.{
  following, notified, raise-clear, uni_key, next_number, Notifies,
}
use g_simulator.Omci.Alarms.{no_alarms, Notifier}
use g_simulator.Onu.State.{World}
use g_simulator.Prelude.{
  ℕ, ◌+◌, ◌<◌, ◌≡◌, ◌≢◌, refl, Bool, true, false, List, [], ◌∷◌, ◌++◌, none, some, length, arith,
}
use g_simulator.Prelude.Map.{lookup}
use g_simulator.Go.{ok, blocks, buffered, closed}
use g_simulator.Fsm.{table_engine}
use g_simulator.Scenarios.Values.{sn1, onu1, world1, plain_library}

abbrev all_taken : World → Bool
all_taken w = true

-- The first bit of the first byte is the alarm; a notification is the entity, the number and the map.
abbrev one_alarm : List ℕ
one_alarm = 0x80 ∷ no_alarms

abbrev plain_notifier : Notifier
plain_notifier = record {
  activate_alarm = λ b n. some (0x80 ∷ b);
  clear_alarm = λ b n. some b;
  serialize_notification = λ e n b. some (e ∷ n ∷ b);
}

plain_notifier-Notifies : Notifies plain_notifier one_alarm (λ e n b. e ∷ n ∷ b)
unfolding equals
plain_notifier-Notifies = record {
  activates = refl;
  some_alarm = refl;
  clears = refl;
  serializes = λ e n b. refl;
}

abbrev alarm : Bool → UniStatusAlarm
alarm raise = record {
  onu_sn = sn1;
  onu_id = 1;
  admin_state = 1;
  entity_id = 257;
  raise_omci_alarm = raise;
}

raise-clear_example :
    let n = next_number (lookup (uni_key 257) world1.onu.onu_alarms_info) in
    let v = handle_uni_status_alarm all_taken plain_notifier (alarm true) world1 in
    let u = handle_uni_status_alarm all_taken plain_notifier (alarm false) v in
    (lookup (uni_key 257) v.onu.onu_alarms_info
      ≡ some (record { sequence_no = n; alarm_bit_map = one_alarm }))
    × (lookup (uni_key 257) u.onu.onu_alarms_info ≡ none)
    × ((j : OnuAlarmInfoMapKey)
        → j ≢ uni_key 257
        → lookup j u.onu.onu_alarms_info ≡ lookup j world1.onu.onu_alarms_info)
    × (u.indications
        ≡ world1.indications
          ++ notified onu1 (257 ∷ n ∷ one_alarm)
            ∷ notified onu1 (257 ∷ following n ∷ no_alarms)
            ∷ [])
raise-clear_example =
    raise-clear all_taken (λ w. refl) plain_notifier one_alarm (λ e n b. e ∷ n ∷ b)
      plain_notifier-Notifies (alarm true) (alarm false) world1 refl refl refl

-- The channel of an ONU that went down: an alarm and the removal of a flow are left.
abbrev gone : Running
gone = record {
  world = record world1 {
    onu = record onu1 { channel = closed (uni_status_alarm (alarm true) ∷ send_eapol_flow ∷ []) };
  };
  sent = [];
  requested = [];
}

abbrev stray : OnuPacket
stray = record { port_no = 99; packet = []; mac_address = [] }

-- A packet for a port number that no UNI has, before an alarm, on a channel for two messages.
abbrev lost : Running
lost = record gone {
  world = record world1 {
    onu = record onu1 {
      channel = buffered 2 (onu_packet_out stray ∷ uni_status_alarm (alarm true) ∷ []);
    };
  };
}

no-uni_99 : find_uni_by_port_no 99 lost.world.onu ≡ none
unfolding find_uni_by_port_no
no-uni_99 = refl

process_messages-stops_example :
    (process_messages table_engine 7 true plain_library false all_taken plain_notifier none 8 lost
      ≡ ok (returned, left_with 2 (uni_status_alarm (alarm true) ∷ []) lost))
    × ((ms : List Message)
        → 2 < 1 + length ms
        → tell_all ms (left_with 2 (uni_status_alarm (alarm true) ∷ []) lost).world ≡ blocks)
process_messages-stops_example =
    process_messages-stops table_engine 7 true plain_library false all_taken plain_notifier none
      stray (uni_status_alarm (alarm true) ∷ []) 2 7 lost refl no-uni_99 (omega arith)
