-- ===== src/Onu/Omci/OneSection.antt =====
-- A download of one section that is sent with a request for a response
-- (internal/bbsim/devices/onu.go, handleOmciRequest).
use g_simulator.Prelude.{ℕ, ◌+◌, ◌≡◌, refl, sym, Bool, List, [], some, u8, arith}
use g_simulator.Go.{Result, ok, ◌>>=◌, Yields}
use g_simulator.Fsm.{Engine}
use g_simulator.Omci.Packet.{
  OmciHeader, Results, StartSoftwareDownloadRequest, DownloadSectionRequest,
  EndSoftwareDownloadRequest, start_software_download_request, download_section_request,
  end_software_download_request,
}
use g_simulator.Omci.Responses.{
  Library, create_start_software_download_response, create_end_software_download_response,
  create_download_section_response,
}
use g_simulator.Omci.Sections.{sections_count}
use g_simulator.Onu.Machine.{OnuState, OnuTx, onu_event-next}
use g_simulator.Onu.State.{World}
use g_simulator.Onu.Events.{fire_onu}
use g_simulator.Onu.Omci.Base.{Handled, responds, fire_logged}
use g_simulator.Onu.Omci.Image.{
  slice_to, check_image, handle_start_software_download, handle_download_section_with_response,
  handle_end_software_download,
}
use g_simulator.Onu.Omci.Download.{message, MayStart, Fits, started, started_lem}

module _ (engine : Engine) (stream : ℕ) (is_mock : Bool) (lib : Library) (header : OmciHeader) where
  -- A download of one section with response, as the source handles it.
  abbrev pub download_one :
      StartSoftwareDownloadRequest
      → DownloadSectionRequest
      → EndSoftwareDownloadRequest
      → World
      → Result (Handled × World)
  download_one start section end w = do
    (_, w1) ←
        handle_start_software_download lib (message header (start_software_download_request start))
          engine stream is_mock w
    (_, w2) ←
        handle_download_section_with_response lib
          (message header (download_section_request section)) w1
    handle_end_software_download lib (message header (end_software_download_request end)) engine
        stream is_mock w2

  section_with_response_lem :
      (s : DownloadSectionRequest) (w : World) (bytes : List ℕ)
      → create_download_section_response lib (download_section_request s) header ≡ some bytes
      → w.onu.image_software_received_sections ≡ 0
      → w.onu.image_section_data ≡ []
      → handle_download_section_with_response lib (message header (download_section_request s)) w
        ≡ ok (
          responds (some bytes),
          record w {
            onu = record w.onu {
              image_section_data = s.section_data;
              image_software_received_sections = 1;
            };
          },
        )
  unfolding handle_download_section_with_response
  section_with_response_lem s w bytes e z n = ground (arith, e)

  end_too_early :
      (end : EndSoftwareDownloadRequest) (w : World) (bytes : List ℕ)
      → w.onu.internal_state ≡ OnuState.image_download_started
      → w.onu.image_software_received_sections ≡ w.onu.image_software_expected_sections
      → Fits engine stream is_mock lib header end w.onu.image_section_data
      → create_end_software_download_response lib
          (end_software_download_request end)
          header
          Results.success
        ≡ some bytes
      → handle_end_software_download lib
          (message header (end_software_download_request end))
          engine
          stream
          is_mock
          w
        ≡ ok (
          responds (some bytes),
          record w {
            onu = record w.onu {
              mib_data_sync = u8 (w.onu.mib_data_sync + 1);
              standby_image_version = w.onu.in_download_image_version;
            };
          },
        )
  unfolding handle_end_software_download check_image slice_to fire_logged fire_onu
  end_too_early end w bytes h e f r = ground (
    arith,
    f.not_empty,
    f.enough,
    f.crc,
    r,
    onu_event-next engine OnuState.image_download_started OnuTx.complete_image_download,
  )

  -- If the responses can be serialized, a download whose image is one section with the right size and CRC, sent with a request for a response, is answered with success,
  -- but the ONU stays in `image_download_started`, and its standby version is that of the download
  -- before: neither the state nor the version follows such a section.
  pub download_one_lem :
      (start : StartSoftwareDownloadRequest) (s : DownloadSectionRequest)
      (end : EndSoftwareDownloadRequest) (w : World) (start_bytes section_bytes end_bytes : List ℕ)
      → MayStart w.onu.internal_state
      → sections_count start ≡ 1
      → Fits engine stream is_mock lib header end s.section_data
      → create_start_software_download_response lib (start_software_download_request start) header
        ≡ ok (some start_bytes)
      → create_download_section_response lib (download_section_request s) header
        ≡ some section_bytes
      → create_end_software_download_response lib
          (end_software_download_request end)
          header
          Results.success
        ≡ some end_bytes
      → Yields
          (λ (r : Handled × World).
            (r.0 ≡ responds (some end_bytes))
            × (r.1.onu.internal_state ≡ OnuState.image_download_started)
            × (r.1.onu.standby_image_version ≡ w.onu.in_download_image_version))
          (download_one start s end w)
  download_one_lem start s end w start_bytes section_bytes end_bytes h one f e1 e2 e3 =
      let w1 = started engine stream is_mock lib header start w in
      let w2 : World = record w1 {
        onu = record w1.onu {
          image_section_data = s.section_data;
          image_software_received_sections = 1;
        };
      } in
      rw (started_lem engine stream is_mock lib header start w h start_bytes e1) (
        rw (section_with_response_lem s w1 section_bytes e2 refl refl)
          (rw (end_too_early end w2 end_bytes refl (sym one) f e3) (refl, refl, refl)))
