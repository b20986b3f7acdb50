-- ===== src/Onu/Omci/Image.antt =====
-- The cases of handleOmciRequest for software images (internal/bbsim/devices/onu.go).
use g_simulator.Prelude.{
  ℕ, ◌+◌, ◌*◌, ◌/◌, ◌%◌, Bool, true, false, not, ◌&&◌, List, [], ◌∷◌, ◌++◌, Option, none, some, ltb,
  leb, ◌==◌, if◌then◌else◌, length, take, u32,
}
use g_simulator.Go.{Result, ok, ◌>>=◌}
use g_simulator.Fsm.{Engine}
use g_simulator.Omci.Packet.{
  Results, MeBase, OmciMessage, DownloadSectionRequest, EndSoftwareDownloadRequest,
  parse_download_section_request, parse_end_software_download_request,
  parse_activate_software_request, parse_commit_software_request,
}
use g_simulator.Omci.Responses.{
  Library, create_start_software_download_response, create_download_section_response,
  create_end_software_download_response, create_activate_software_response,
  create_commit_software_response,
}
use g_simulator.Omci.Sections.{compute_download_sections_count}
use g_simulator.Onu.Machine.{OnuState, OnuTx}
use g_simulator.Onu.State.{Onu, World, reboot}
use g_simulator.Onu.Omci.Base.{Handled, responds, fails, mds_incremented, fire_logged, respond_then}

-- `s[:n]`.
unfoldable pub slice_to : Library → ℕ → List ℕ → Result (List ℕ)
slice_to lib n s = if leb n (length s) then ok (take n s) else lib.beyond n s

-- The bytes of a 32-bit integer in the other order.
abbrev pub swap_bytes : ℕ → ℕ
swap_bytes c = ((c % 256 * 256 + c / 256 % 256) * 256 + c / 65536 % 256) * 256 + c / 16777216

abbrev pub in_progress : OnuState → Bool
in_progress OnuState.image_download_in_progress = true
in_progress _ = false

-- `o.ActiveImageVersion` and `o.StandbyImageVersion` change places.
abbrev pub activated : MeBase → Onu → Onu
activated b o = record o {
  active_image_entity_id = b.entity_instance;
  active_image_version = o.standby_image_version;
  standby_image_version = o.active_image_version;
}

abbrev pub committed : MeBase → Onu → Onu
committed b o = record o {
  active_image_entity_id = b.entity_instance;
  committed_image_entity_id = b.entity_instance;
  standby_image_version = o.committed_image_version;
  committed_image_version = o.active_image_version;
}

-- A request that does not parse changes nothing.
abbrev pub if_parsed : (MeBase → Onu → Onu) → Option MeBase → World → World
if_parsed f none w = w
if_parsed f (some b) w = record w { onu = f b w.onu }

module _ (lib : Library) (msg : OmciMessage) where
  -- What a section adds to the image, and to the version if it is the first.
  unfoldable pub receive_section : DownloadSectionRequest → Onu → Result Onu
  unfolding slice_to
  receive_section r o = do
    version ←
        if o.image_software_received_sections == 0
        then slice_to lib 14 r.section_data
        else ok o.in_download_image_version
    ok (record o {
      in_download_image_version = version;
      image_section_data = o.image_section_data ++ r.section_data;
      image_software_received_sections = u32 (o.image_software_received_sections + 1);
    })

  -- The case DownloadSectionRequestWithResponseType.
  unfoldable pub handle_download_section_with_response : World → Result (Handled × World)
  handle_download_section_with_response w = elim (parse_download_section_request msg.omci_pkt) [
    | none ↦ ok (responds none, w)
    | some r ↦
        let grown = record w.onu {
          image_section_data = w.onu.image_section_data ++ r.section_data;
        } in
        elim (create_download_section_response lib msg.omci_pkt msg.omci_msg) [
          | none ↦ ok (fails, record w { onu = grown })
          | some bytes ↦ ok (
            responds (some bytes),
            record w {
              onu = record grown {
                image_software_received_sections = u32 (w.onu.image_software_received_sections + 1);
              };
            },
          )
        ]
  ]

  -- handleEndSoftwareDownloadRequest after parsing: is the image complete?
  unfoldable pub check_image : EndSoftwareDownloadRequest → Onu → Result (Bool × Onu)
  unfolding slice_to
  check_image r o =
      if ltb 0 o.image_software_received_sections
        && ((r.image_size == 0) && (r.crc32 == 4294967295))
      then ok (true, record o { image_software_received_sections = 0 })
      else if not (o.image_software_expected_sections == o.image_software_received_sections)
      then ok (false, o)
      else (do
        image ← slice_to lib r.image_size o.image_section_data
        if r.crc32 == swap_bytes (lib.checksum image)
            then ok (true, record o { standby_image_version = o.in_download_image_version })
            else ok (false, o))

  -- handleEndSoftwareDownloadRequest.
  unfoldable pub handle_end_software_download_request : Onu → Result (Bool × Onu)
  unfolding check_image
  handle_end_software_download_request o = elim (parse_end_software_download_request msg.omci_pkt) [
    | none ↦ ok (false, o)
    | some r ↦ check_image r o
  ]

  module _ (engine : Engine) (stream : ℕ) (is_mock : Bool) where
    -- The case StartSoftwareDownloadRequestType.
    unfoldable pub handle_start_software_download : World → Result (Handled × World)
    handle_start_software_download w = do
      expected ← compute_download_sections_count msg.omci_pkt
      let v = record w {
        onu = record w.onu {
          image_software_received_sections = 0;
          image_section_data = [];
          image_software_expected_sections = expected;
        };
      }
      response ← create_start_software_download_response lib msg.omci_pkt msg.omci_msg
      respond_then response
          (λ u. fire_logged engine stream is_mock OnuTx.start_image_download (mds_incremented u)) v

    -- A section without response.
    unfoldable pub take_section : DownloadSectionRequest → World → Result (Handled × World)
    unfolding receive_section
    take_section r w = do
      o ← receive_section r w.onu
      let v = record w { onu = o }
      u ←
          if in_progress o.internal_state
          then ok v
          else fire_logged engine stream is_mock OnuTx.progress_image_download v
      ok (responds none, u)

    -- The case DownloadSectionRequestType.
    unfoldable pub handle_download_section : World → Result (Handled × World)
    unfolding take_section
    handle_download_section w = elim (parse_download_section_request msg.omci_pkt) [
      | none ↦ ok (responds none, w)
      | some r ↦ take_section r w
    ]

    -- The case EndSoftwareDownloadRequestType.
    unfoldable pub handle_end_software_download : World → Result (Handled × World)
    unfolding handle_end_software_download_request
    handle_end_software_download w = do
      (success, o) ← handle_end_software_download_request w.onu
      let v = record w { onu = o }
      if success
          then respond_then
              (create_end_software_download_response lib msg.omci_pkt msg.omci_msg Results.success)
              (λ u.
                fire_logged engine stream is_mock OnuTx.complete_image_download (mds_incremented u))
              v
          else respond_then
              (create_end_software_download_response lib msg.omci_pkt msg.omci_msg
                Results.processing_error)
              (λ u. fire_logged engine stream is_mock OnuTx.fail_image_download u) v

    -- The case ActivateSoftwareRequestType; the reboot runs in a goroutine of its own.
    unfoldable pub handle_activate_software : World → Result (Handled × World)
    handle_activate_software w =
        respond_then (create_activate_software_response lib msg.omci_pkt msg.omci_msg)
          (λ u. do
            v ← fire_logged engine stream is_mock OnuTx.activate_image (mds_incremented u)
            let v' = if_parsed activated (parse_activate_software_request msg.omci_pkt) v
            ok (record v' { spawned = reboot ∷ v'.spawned }))
          w

    -- The case CommitSoftwareRequestType.
    unfoldable pub handle_commit_software : World → Result (Handled × World)
    handle_commit_software w =
        respond_then (create_commit_software_response lib msg.omci_pkt msg.omci_msg)
          (λ u.
            fire_logged engine stream is_mock OnuTx.commit_image (
              if_parsed committed (parse_commit_software_request msg.omci_pkt) (mds_incremented u)))
          w
