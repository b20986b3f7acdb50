-- ===== src/Onu/Omci.antt =====
-- The handler of OMCI requests of an ONU (internal/bbsim/devices/onu.go: handleOmciRequest,
-- sendOmciIndication, publishOmciEvent).
pub mod Base
pub mod Requests
pub mod Image
pub mod GemPorts
pub mod Download
pub mod Steady
pub mod SetsSteady
pub mod EndsSteady
pub mod Rounds
pub mod Versions
pub mod OneSection
pub mod Queries
pub mod AllocIds
use g_simulator.Prelude.{
  ℕ, ◌+◌, Bool, true, false, ◌&&◌, List, [], ◌∷◌, ◌++◌, Option, none, some, ltb, ◌==◌,
  if◌then◌else◌, map, u16,
}
use g_simulator.Go.{Result, ok, ◌>>=◌}
use g_simulator.Fsm.{Engine}
use g_simulator.Omci.Packet.{Results, MeBase, MessageType, OmciMessage}
use g_simulator.Omci.Responses.{
  OnuAlarmInfoMapKey, OnuAlarmInfo, Content, Library, create_mib_upload_response,
  create_reboot_response, create_test_response, create_test_result, create_sync_time_response,
  create_get_all_alarms_response, create_get_all_alarms_next_response, create_get_response,
  create_mib_upload_next_response,
}
use g_simulator.Onu.State.{Onu, World, OmciIndication, OmciEvent, reboot, send_test_result}
use g_simulator.Onu.Omci.Base.{
  OmciError, skipping_omci_msg_response, download_section_response_failed, Handled, responds, fails,
}
use g_simulator.Onu.Omci.Requests.{handle_mib_reset, handle_set, handle_create, handle_delete}
use g_simulator.Onu.Omci.Image.{
  handle_start_software_download, handle_download_section, handle_download_section_with_response,
  handle_end_software_download, handle_activate_software, handle_commit_software,
}

-- `maxOmciMsgCounter`.
abbrev pub max_omci_msg_counter : ℕ
max_omci_msg_counter = 10

-- The count of the messages of a round.
unfoldable pub counted : Onu → Onu
counted o = record o {
  omci_msg_counter =
      if ltb o.omci_msg_counter max_omci_msg_counter then o.omci_msg_counter + 1 else 1;
}

-- The loop of the case GetAllAlarmsRequestType.
unfoldable pub reset_sequence_numbers :
    List (OnuAlarmInfoMapKey × OnuAlarmInfo) → List (OnuAlarmInfoMapKey × OnuAlarmInfo)
reset_sequence_numbers [] = []
reset_sequence_numbers ((k, info) ∷ rest) =
    (k, record info { sequence_no = 0 }) ∷ reset_sequence_numbers rest

-- sendOmciIndication, whose error is only logged: what is recorded is the call of `stream.Send`.
unfoldable pub send_omci_indication : List ℕ → World → World
send_omci_indication pkt w = record w {
  indications =
      w.indications ++ record { intf_id = w.onu.pon_port_id; onu_id = w.onu.id; pkt = pkt } ∷ [];
}

-- publishOmciEvent.
unfoldable pub publish_omci_event : Bool → OmciMessage → World → World
publish_omci_event publish_events msg w =
    if publish_events
    then elim msg.reparsed [
      | some MessageType.mib_upload ↦ record w {
        onu = record w.onu { seq_number = 0 };
        published = w.published ++ OmciEvent.mib_upload_received ∷ [];
      }
      | some MessageType.mib_upload_next ↦
          let n = u16 (w.onu.seq_number + 1) in
          record w {
            onu = record w.onu { seq_number = n };
            published =
                if ltb 290 n then w.published ++ OmciEvent.mib_upload_done ∷ [] else w.published;
          }
      | _ ↦ w
    ]
    else w

module _ (lib : Library) (msg : OmciMessage) where
  -- The case TestRequestType.
  unfoldable pub handle_test : World → Result (Handled × World)
  handle_test w = elim (create_test_response lib msg.omci_pkt msg.omci_msg) [
    | none ↦ ok (responds none, w)
    | some (bytes, b) ↦ elim (create_test_result lib msg.omci_pkt msg.omci_msg b) [
      | none ↦ ok (responds (some bytes), w)
      | some result ↦ ok (
        responds (some bytes),
        record w { spawned = send_test_result result msg.omci_msg.transaction_id ∷ w.spawned },
      )
    ]
  ]

  -- The case GetAllAlarmsRequestType.
  unfoldable pub handle_get_all_alarms : World → Result (Handled × World)
  handle_get_all_alarms w =
      let alarms = reset_sequence_numbers w.onu.onu_alarms_info in
      ok (
        responds (create_get_all_alarms_response alarms lib msg.omci_pkt msg.omci_msg),
        record w { onu = record w.onu { onu_alarms_info = alarms } },
      )

  -- The case GetRequestType.
  unfoldable pub handle_get : World → Result (Handled × World)
  handle_get w =
      let o = w.onu in
      ok (
        responds (
            create_get_response lib msg.omci_pkt msg.omci_msg o.mib_data_sync
              o.active_image_entity_id o.committed_image_entity_id
              (o.standby_image_version ∷ o.active_image_version ∷ o.committed_image_version ∷ [])
              (o.admin_lock_state == 1)),
        w,
      )

  module _ (engine : Engine) (stream : ℕ) (is_mock : Bool) where
    -- The switch of handleOmciRequest.
    unfoldable pub dispatch : MessageType → World → Result (Handled × World)
    unfolding handle_test handle_get_all_alarms handle_get
    dispatch MessageType.mib_reset w = handle_mib_reset lib msg w
    dispatch MessageType.mib_upload w = ok (
      responds (
          create_mib_upload_response lib msg.omci_pkt msg.omci_msg w.onu.baseline_commands
            w.onu.extended_commands),
      w,
    )
    dispatch MessageType.mib_upload_next w =
        ok (responds (create_mib_upload_next_response lib msg.omci_pkt msg.omci_msg), w)
    dispatch MessageType.get w = handle_get w
    dispatch MessageType.set w = handle_set lib msg engine stream w
    dispatch MessageType.create w = handle_create lib msg w
    dispatch MessageType.delete w = handle_delete lib msg w
    dispatch MessageType.reboot w = ok (
      responds (create_reboot_response lib msg.omci_pkt msg.omci_msg),
      record w { spawned = reboot ∷ w.spawned },
    )
    dispatch MessageType.test w = handle_test w
    dispatch MessageType.synchronize_time w =
        ok (responds (create_sync_time_response lib msg.omci_pkt msg.omci_msg), w)
    dispatch MessageType.start_software_download w =
        handle_start_software_download lib msg engine stream is_mock w
    dispatch MessageType.download_section w =
        handle_download_section lib msg engine stream is_mock w
    dispatch MessageType.download_section_with_response w =
        handle_download_section_with_response lib msg w
    dispatch MessageType.end_software_download w =
        handle_end_software_download lib msg engine stream is_mock w
    dispatch MessageType.activate_software w =
        handle_activate_software lib msg engine stream is_mock w
    dispatch MessageType.commit_software w = handle_commit_software lib msg engine stream is_mock w
    dispatch MessageType.get_all_alarms w = handle_get_all_alarms w
    dispatch MessageType.get_all_alarms_next w = ok (
      responds
          (create_get_all_alarms_next_response w.onu.onu_alarms_info lib msg.omci_pkt msg.omci_msg),
      w,
    )
    dispatch MessageType.other_type w = ok (responds none, w)

    -- The end of handleOmciRequest.
    unfoldable pub conclude : Bool → Handled → World → Option OmciError × World
    unfolding send_omci_indication publish_omci_event
    conclude publish_events fails w = (some download_section_response_failed, w)
    conclude publish_events (responds none) w = (none, publish_omci_event publish_events msg w)
    conclude publish_events (responds (some pkt)) w =
        (none, publish_omci_event publish_events msg (send_omci_indication pkt w))

    -- handleOmciRequest; `some` is the error returned.
    unfoldable pub handle_omci_request : Bool → World → Result (Option OmciError × World)
    unfolding counted dispatch conclude
    handle_omci_request publish_events w0 = do
      let w = record w0 { onu = counted w0.onu }
      if ltb w.onu.omci_response_rate w.onu.omci_msg_counter
          then ok (some (skipping_omci_msg_response w.onu.omci_response_rate), w)
          else (do
            (handled, v) ← dispatch msg.omci_msg.message_type w
            ok (conclude publish_events handled v))
