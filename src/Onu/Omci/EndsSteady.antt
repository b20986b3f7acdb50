-- ===== src/Onu/Omci/EndsSteady.antt =====
-- No case of handleOmciRequest changes the response rate or the counter of a round
-- (internal/bbsim/devices/onu.go).
use g_simulator.Prelude.{
  ℕ, ◌≡◌, inl, inr, Bool, true, false, Option, none, some, Option-cases, if◌then◌else◌, arith,
}
use g_simulator.Go.{StaysClosed, ok, ◌>>=◌, deref, Ensures, Ensures-bind, Ensures-any, Ensures-map}
use g_simulator.Fsm.{Engine}
use g_simulator.Omci.Packet.{
  MessageType, OmciMessage, SetRequest, MeBase, Results, DownloadSectionRequest, parse_set_request,
  parse_download_section_request, parse_activate_software_request, parse_commit_software_request,
}
use g_simulator.Omci.Responses.{
  Library, create_start_software_download_response, create_end_software_download_response,
  create_set_response,
}
use g_simulator.Omci.Sections.{compute_download_sections_count}
use g_simulator.Onu.Machine.{OnuTx}
use g_simulator.Onu.State.{Onu, World}
use g_simulator.Onu.Omci.Base.{responds, respond_then, mds_incremented, fire_logged}
use g_simulator.Onu.Omci.Requests.{
  handle_mib_reset, handle_set, handle_create, handle_delete, claim_gem_port, free_gem_port,
  apply_set, set_t_cont,
}
use g_simulator.Onu.Omci.Image.{
  handle_start_software_download, handle_download_section, handle_download_section_with_response,
  handle_end_software_download, handle_activate_software, handle_commit_software, receive_section,
  take_section, check_image, handle_end_software_download_request, if_parsed, activated, committed,
  in_progress,
}
use g_simulator.Onu.Omci.{dispatch, handle_test, handle_get_all_alarms, handle_get}
use g_simulator.Onu.Omci.SetsSteady.{set_pptp_uni-Steady, set_pptp_pots-Steady}
use g_simulator.Onu.Omci.Steady.{
  Steady, Steady-refl, Steady-trans, starts, progresses, completes, fails, activates, commits,
  EndsSteady, respond_then-EndsSteady, fire_logged-Steady,
}

module _ (engine : Engine) (stream : ℕ) (is_mock : Bool) (lib : Library) (msg : OmciMessage) where
  activated-Steady :
      (b : Option MeBase) (w v : World) → Steady w v → Steady w (if_parsed activated b v)
  activated-Steady none w v h = h
  activated-Steady (some b) w v h = h

  committed-Steady :
      (b : Option MeBase) (w : World) → Steady w (if_parsed committed b (mds_incremented w))
  committed-Steady none w = (Steady-refl w)
  committed-Steady (some b) w = (Steady-refl w)

  received :
      (r : DownloadSectionRequest) (o : Onu)
      → Ensures
          (λ p.
            (p.omci_msg_counter ≡ o.omci_msg_counter)
            × (p.omci_response_rate ≡ o.omci_response_rate)
            × StaysClosed o.channel p.channel)
          (receive_section lib msg r o)
  unfolding receive_section
  received r o = ground arith

  checked :
      (o : Onu)
      → Ensures
          (λ x.
            (x.1.omci_msg_counter ≡ o.omci_msg_counter)
            × (x.1.omci_response_rate ≡ o.omci_response_rate)
            × StaysClosed o.channel x.1.channel)
          (handle_end_software_download_request lib msg o)
  unfolding handle_end_software_download_request check_image
  checked o = ground arith

  start-EndsSteady :
      (w : World) → EndsSteady w (handle_start_software_download lib msg engine stream is_mock w)
  unfolding handle_start_software_download
  start-EndsSteady w =
      Ensures-bind (λ _. Unit {0}) (λ x. Steady w x.1)
        (compute_download_sections_count msg.omci_pkt) _ (Ensures-any _)
        λ expected _.
          Ensures-bind (λ _. Unit {0}) (λ x. Steady w x.1)
            (create_start_software_download_response lib msg.omci_pkt msg.omci_msg) _
            (Ensures-any _)
            λ response _. respond_then-EndsSteady response _ w _ (Steady-refl w) (
              fire_logged-Steady engine stream is_mock OnuTx.start_image_download
                (mds_incremented _) starts)

  section_done :
      (already : Bool) (w v : World)
      → Steady w v
      → EndsSteady w (do
        u ←
            if already
            then ok v
            else fire_logged engine stream is_mock OnuTx.progress_image_download v
        ok (responds none, u))
  section_done true w v h = h
  section_done false w v h =
      Ensures-bind (Steady v) (λ x. Steady w x.1)
        (fire_logged engine stream is_mock OnuTx.progress_image_download v) _
        (fire_logged-Steady engine stream is_mock OnuTx.progress_image_download v progresses)
        λ u k. Steady-trans w v u h k

  take_section-EndsSteady :
      (r : DownloadSectionRequest) (w : World)
      → EndsSteady w (take_section lib msg engine stream is_mock r w)
  unfolding take_section
  take_section-EndsSteady r w =
      Ensures-bind
        (λ o.
          (o.omci_msg_counter ≡ w.onu.omci_msg_counter)
          × (o.omci_response_rate ≡ w.onu.omci_response_rate)
          × StaysClosed w.onu.channel o.channel)
        (λ x. Steady w x.1) (receive_section lib msg r w.onu) _ (received r w.onu)
        λ o h. section_done (in_progress o.internal_state) w (record w { onu = o }) h

  section-EndsSteady :
      (w : World) → EndsSteady w (handle_download_section lib msg engine stream is_mock w)
  unfolding handle_download_section
  section-EndsSteady w = elim (Option-cases (parse_download_section_request msg.omci_pkt)) [
    | inl e ↦ ground (arith, e)
    | inr (r, e) ↦ ground (arith, e, take_section-EndsSteady r w)
  ]

  ended :
      (success : Bool) (w v : World)
      → Steady w v
      → EndsSteady w (
          if success
          then respond_then
              (create_end_software_download_response lib msg.omci_pkt msg.omci_msg Results.success)
              (λ u.
                fire_logged engine stream is_mock OnuTx.complete_image_download (mds_incremented u))
              v
          else respond_then
              (create_end_software_download_response lib msg.omci_pkt msg.omci_msg
                Results.processing_error)
              (λ u. fire_logged engine stream is_mock OnuTx.fail_image_download u)
              v)
  ended true w v h = respond_then-EndsSteady _ _ w v h (
      fire_logged-Steady engine stream is_mock OnuTx.complete_image_download (mds_incremented v)
        completes)
  ended false w v h =
      respond_then-EndsSteady _ _ w v h
        (fire_logged-Steady engine stream is_mock OnuTx.fail_image_download v fails)

  end-EndsSteady :
      (w : World) → EndsSteady w (handle_end_software_download lib msg engine stream is_mock w)
  unfolding handle_end_software_download
  end-EndsSteady w =
      Ensures-bind
        (λ x.
          (x.1.omci_msg_counter ≡ w.onu.omci_msg_counter)
          × (x.1.omci_response_rate ≡ w.onu.omci_response_rate)
          × StaysClosed w.onu.channel x.1.channel)
        (λ x. Steady w x.1) (handle_end_software_download_request lib msg w.onu) _ (checked w.onu)
        λ (success, o) h. ended success w (record w { onu = o }) h

  activate-EndsSteady :
      (w : World) → EndsSteady w (handle_activate_software lib msg engine stream is_mock w)
  unfolding handle_activate_software
  activate-EndsSteady w = respond_then-EndsSteady _ _ w w (Steady-refl w) (
      Ensures-bind (Steady w) (Steady w)
        (fire_logged engine stream is_mock OnuTx.activate_image (mds_incremented w)) _
        (fire_logged-Steady engine stream is_mock OnuTx.activate_image (mds_incremented w)
          activates)
        λ v h. activated-Steady (parse_activate_software_request msg.omci_pkt) w v h)

  abbrev after_commit : World → World
  after_commit w =
      if_parsed committed (parse_commit_software_request msg.omci_pkt) (mds_incremented w)

  commit-EndsSteady :
      (w : World) → EndsSteady w (handle_commit_software lib msg engine stream is_mock w)
  unfolding handle_commit_software
  commit-EndsSteady w = respond_then-EndsSteady _ _ w w (Steady-refl w) (
      Ensures-map (Steady (after_commit w)) (Steady w)
        (fire_logged engine stream is_mock OnuTx.commit_image (after_commit w))
        (λ v h.
          Steady-trans w (after_commit w) v
            (committed-Steady (parse_commit_software_request msg.omci_pkt) w) h)
        (fire_logged-Steady engine stream is_mock OnuTx.commit_image (after_commit w) commits))

  section_with_response-EndsSteady :
      (w : World) → EndsSteady w (handle_download_section_with_response lib msg w)
  unfolding handle_download_section_with_response
  section_with_response-EndsSteady w = ground arith

  reset-EndsSteady : (w : World) → EndsSteady w (handle_mib_reset lib msg w)
  unfolding handle_mib_reset
  reset-EndsSteady w = ground arith

  create-EndsSteady : (w : World) → EndsSteady w (handle_create lib msg w)
  unfolding handle_create claim_gem_port
  create-EndsSteady w = ground arith

  delete-EndsSteady : (w : World) → EndsSteady w (handle_delete lib msg w)
  unfolding handle_delete free_gem_port
  delete-EndsSteady w = ground arith

  apply_set-Steady :
      (r : SetRequest) (w : World)
      → Ensures (λ x. Steady w x.1) (apply_set lib msg engine stream r w)
  unfolding apply_set set_t_cont
  apply_set-Steady r w = ground (
    arith,
    set_pptp_uni-Steady engine stream lib msg r w,
    set_pptp_pots-Steady engine stream lib msg r w,
  )

  set_done :
      (success : Bool) (w v : World)
      → Steady w v
      → EndsSteady w (
          if success
          then respond_then
              (create_set_response lib msg.omci_pkt msg.omci_msg Results.success)
              (λ u. ok (mds_incremented u))
              v
          else ok (
            responds (create_set_response lib msg.omci_pkt msg.omci_msg Results.attribute_failure),
            v,
          ))
  set_done true w v h = respond_then-EndsSteady _ _ w v h (Steady-refl v)
  set_done false w v h = h

  set-EndsSteady : (w : World) → EndsSteady w (handle_set lib msg engine stream w)
  unfolding handle_set
  set-EndsSteady w =
      Ensures-bind (λ _. Unit {0}) (λ x. Steady w x.1) (deref (parse_set_request msg.omci_pkt)) _
        (Ensures-any _)
        λ r _.
          Ensures-bind (λ x. Steady w x.1) (λ x. Steady w x.1) (apply_set lib msg engine stream r w)
            _ (apply_set-Steady r w) λ (success, v) h. set_done success w v h

  pub dispatch-EndsSteady :
      (t : MessageType) (w : World) → EndsSteady w (dispatch lib msg engine stream is_mock t w)
  unfolding dispatch handle_test handle_get_all_alarms handle_get
  dispatch-EndsSteady MessageType.mib_reset w = reset-EndsSteady w
  dispatch-EndsSteady MessageType.set w = set-EndsSteady w
  dispatch-EndsSteady MessageType.create w = create-EndsSteady w
  dispatch-EndsSteady MessageType.delete w = delete-EndsSteady w
  dispatch-EndsSteady MessageType.test w = ground arith
  dispatch-EndsSteady MessageType.start_software_download w = start-EndsSteady w
  dispatch-EndsSteady MessageType.download_section w = section-EndsSteady w
  dispatch-EndsSteady MessageType.download_section_with_response w =
      section_with_response-EndsSteady w
  dispatch-EndsSteady MessageType.end_software_download w = end-EndsSteady w
  dispatch-EndsSteady MessageType.activate_software w = activate-EndsSteady w
  dispatch-EndsSteady MessageType.commit_software w = commit-EndsSteady w
  dispatch-EndsSteady MessageType.get_all_alarms w = (Steady-refl w)
  dispatch-EndsSteady _ w = (Steady-refl w)
