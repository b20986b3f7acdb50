-- ===== src/Onu/Omci/Download.antt =====
-- The download of a software image over OMCI (internal/bbsim/devices/onu.go, handleOmciRequest), with
-- the messages in the order of a complete download.
use g_simulator.Prelude.{
  ℕ, suc, ◌+◌, ◌≤◌, ◌<◌, ◌≡◌, ◌≢◌, refl, Bool, List, [], ◌∷◌, ◌++◌, none, some, ◌∙◌, append-nil,
  append_assoc, length, take, u8, arith,
}
use g_simulator.Go.{Result, ok, ◌>>=◌, Yields}
use g_simulator.Fsm.{Engine, moves}
use g_simulator.Omci.Packet.{
  Body, OmciHeader, OmciMessage, Results, StartSoftwareDownloadRequest, DownloadSectionRequest,
  EndSoftwareDownloadRequest, start_software_download_request, download_section_request,
  end_software_download_request,
}
use g_simulator.Omci.Responses.{
  Library, create_start_software_download_response, create_end_software_download_response,
}
use g_simulator.Omci.Sections.{
  sections_count, sections_count-bounded, compute_download_sections_count,
}
use g_simulator.Onu.Machine.{OnuState, OnuTx, next, onu_event-next}
use g_simulator.Onu.State.{World}
use g_simulator.Onu.Events.{fire_onu}
use g_simulator.Onu.Omci.Base.{Handled, responds, fire_logged}
use g_simulator.Onu.Omci.Image.{
  slice_to, swap_bytes, receive_section, take_section, check_image, handle_start_software_download,
  handle_download_section, handle_end_software_download,
}

-- The message with this body.
abbrev pub message : OmciHeader → Body → OmciMessage
message header body = record { omci_msg = header; omci_pkt = body; reparsed = none }

-- An ONU state in which a download can start.
abbrev pub MayStart : OnuState → Type 0
MayStart s = next s OnuTx.start_image_download ≡ moves OnuState.image_download_started

module _ (engine : Engine) (stream : ℕ) (is_mock : Bool) (lib : Library) (header : OmciHeader) where
  -- The sections, each in a message of its own.
  abbrev pub receive_all : List DownloadSectionRequest → World → Result World
  receive_all [] w = ok w
  receive_all (s ∷ rest) w = do
    (_, v) ←
        handle_download_section lib (message header (download_section_request s)) engine stream
          is_mock w
    receive_all rest v

  -- Start, sections, end.
  abbrev pub download :
      StartSoftwareDownloadRequest
      → List DownloadSectionRequest
      → EndSoftwareDownloadRequest
      → World
      → Result (Handled × World)
  download start sections end w = do
    (_, w1) ←
        handle_start_software_download lib (message header (start_software_download_request start))
          engine stream is_mock w
    w2 ← receive_all sections w1
    handle_end_software_download lib (message header (end_software_download_request end)) engine
        stream is_mock w2

  -- The bytes of sections in their order.
  abbrev pub data_of : List DownloadSectionRequest → List ℕ
  data_of [] = []
  data_of (s ∷ rest) = s.section_data ++ data_of rest

  -- The ONU after the start message.
  abbrev pub started : StartSoftwareDownloadRequest → World → World
  started start w = record w {
    onu = record w.onu {
      internal_state = OnuState.image_download_started;
      mib_data_sync = u8 (w.onu.mib_data_sync + 1);
      image_software_received_sections = 0;
      image_section_data = [];
      image_software_expected_sections = sections_count start;
    };
  }

  pub started_lem :
      (start : StartSoftwareDownloadRequest) (w : World)
      → MayStart w.onu.internal_state
      → (bytes : List ℕ)
      → create_start_software_download_response lib (start_software_download_request start) header
        ≡ ok (some bytes)
      → handle_start_software_download lib
          (message header (start_software_download_request start))
          engine
          stream
          is_mock
          w
        ≡ ok (responds (some bytes), started start w)
  unfolding handle_start_software_download compute_download_sections_count fire_logged fire_onu
  started_lem start w h bytes e =
      ground (arith, e, onu_event-next engine w.onu.internal_state OnuTx.start_image_download)

  -- The ONU after a section, with so many received.
  abbrev pub with_section : DownloadSectionRequest → List ℕ → ℕ → World → World
  with_section s version received w = record w {
    onu = record w.onu {
      internal_state = OnuState.image_download_in_progress;
      in_download_image_version = version;
      image_section_data = w.onu.image_section_data ++ s.section_data;
      image_software_received_sections = received;
    };
  }

  first_section_lem :
      (s : DownloadSectionRequest) (w : World)
      → w.onu.internal_state ≡ OnuState.image_download_started
      → w.onu.image_software_received_sections ≡ 0
      → 14 ≤ length s.section_data
      → handle_download_section lib
          (message header (download_section_request s))
          engine
          stream
          is_mock
          w
        ≡ ok (responds none, with_section s (take 14 s.section_data) 1 w)
  unfolding handle_download_section take_section receive_section slice_to fire_logged fire_onu
  first_section_lem s w h none_yet enough =
      ground
        (arith, onu_event-next engine OnuState.image_download_started OnuTx.progress_image_download)

  next_section_lem :
      (s : DownloadSectionRequest) (w : World)
      → w.onu.internal_state ≡ OnuState.image_download_in_progress
      → 0 < w.onu.image_software_received_sections
      → w.onu.image_software_received_sections + 1 < 4294967296
      → handle_download_section lib
          (message header (download_section_request s))
          engine
          stream
          is_mock
          w
        ≡ ok (
          responds none,
          with_section s w.onu.in_download_image_version
              (w.onu.image_software_received_sections + 1)
              w,
        )
  unfolding handle_download_section take_section receive_section
  next_section_lem s w h some_yet bounded = ground arith

  abbrev pub with_sections : List DownloadSectionRequest → World → World
  with_sections rest w = record w {
    onu = record w.onu {
      image_section_data = w.onu.image_section_data ++ data_of rest;
      image_software_received_sections = w.onu.image_software_received_sections + length rest;
    };
  }

  next_sections_lem :
      (rest : List DownloadSectionRequest) (w : World)
      → w.onu.internal_state ≡ OnuState.image_download_in_progress
      → 0 < w.onu.image_software_received_sections
      → w.onu.image_software_received_sections + length rest < 4294967296
      → receive_all rest w ≡ ok (with_sections rest w)
  next_sections_lem [] w h p b = ground (arith, append-nil w.onu.image_section_data)
  next_sections_lem (s ∷ rest) w h p b = rw (next_section_lem s w h p (omega arith)) (
      next_sections_lem rest
        (with_section s w.onu.in_download_image_version (w.onu.image_software_received_sections + 1)
          w)
        refl (omega arith) (omega arith)
      ∙ ground (arith, append_assoc w.onu.image_section_data s.section_data (data_of rest)))

  -- The message with which the image ends is right for `image`.
  pub record Fits (end : EndSoftwareDownloadRequest) (image : List ℕ) : Type 0 where
    pub not_empty : end.image_size ≢ 0
    pub enough : end.image_size ≤ length image
    pub crc : end.crc32 ≡ swap_bytes (lib.checksum (take end.image_size image))

  end_lem :
      (end : EndSoftwareDownloadRequest) (w : World) (bytes : List ℕ)
      → w.onu.internal_state ≡ OnuState.image_download_in_progress
      → w.onu.image_software_received_sections ≡ w.onu.image_software_expected_sections
      → Fits end w.onu.image_section_data
      → create_end_software_download_response lib
          (end_software_download_request end)
          header
          Results.success
        ≡ some bytes
      → handle_end_software_download lib
          (message header (end_software_download_request end))
          engine
          stream
          is_mock
          w
        ≡ ok (
          responds (some bytes),
          record w {
            onu = record w.onu {
              internal_state = OnuState.image_download_completed;
              mib_data_sync = u8 (w.onu.mib_data_sync + 1);
              standby_image_version = w.onu.in_download_image_version;
            };
          },
        )
  unfolding handle_end_software_download check_image slice_to fire_logged fire_onu
  end_lem end w bytes h e f r = ground (
    arith,
    f.not_empty,
    f.enough,
    f.crc,
    r,
    onu_event-next engine OnuState.image_download_in_progress OnuTx.complete_image_download,
  )

  -- A complete download: what its messages must be.
  pub record IsComplete (start : StartSoftwareDownloadRequest) (first : DownloadSectionRequest)
      (rest : List DownloadSectionRequest) (end : EndSoftwareDownloadRequest) : Type 0 where
    pub size_of_32_bits : start.image_size < 4294967296
    pub all_sections : suc (length rest) ≡ sections_count start
    pub holds_version : 14 ≤ length first.section_data
    pub fits : Fits end (data_of (first ∷ rest))

  -- What a complete download makes of the ONU.
  pub record IsDownloaded (first : DownloadSectionRequest) (all_data bytes : List ℕ) (w : World)
      (r : Handled × World) : Type 0 where
    pub response : r.0 ≡ responds (some bytes)
    pub state : r.1.onu.internal_state ≡ OnuState.image_download_completed
    pub image : r.1.onu.image_section_data ≡ all_data
    pub standby : r.1.onu.standby_image_version ≡ take 14 first.section_data
    pub active : r.1.onu.active_image_version ≡ w.onu.active_image_version
    pub committed : r.1.onu.committed_image_version ≡ w.onu.committed_image_version
    pub mib_data_sync : r.1.onu.mib_data_sync ≡ u8 (w.onu.mib_data_sync + 2)

  -- From a state in which a download can start, the start message (its image size of 32 bits), as many
  -- sections without response as the start message announces (the first of at least 14 bytes) and an
  -- end message with a size other than 0 that the sections hold and the right CRC are handled to the end,
  -- if the two responses can be serialized: the download is completed and answered with success, the ONU holds the bytes of all sections in
  -- their order, the first 14 of them are the standby version, and the MIB data sync is two higher.
  pub download-IsDownloaded :
      (start : StartSoftwareDownloadRequest) (first : DownloadSectionRequest)
      (rest : List DownloadSectionRequest) (end : EndSoftwareDownloadRequest) (w : World)
      (start_bytes end_bytes : List ℕ)
      → MayStart w.onu.internal_state
      → IsComplete start first rest end
      → create_start_software_download_response lib (start_software_download_request start) header
        ≡ ok (some start_bytes)
      → create_end_software_download_response lib
          (end_software_download_request end)
          header
          Results.success
        ≡ some end_bytes
      → Yields
          (IsDownloaded first (data_of (first ∷ rest)) end_bytes w)
          (download start (first ∷ rest) end w)
  download-IsDownloaded start first rest end w start_bytes end_bytes h c r1 r2 =
      let bounded = sections_count-bounded start c.size_of_32_bits in
      let w1 = started start w in
      let w2 = with_section first (take 14 first.section_data) 1 w1 in
      rw (started_lem start w h start_bytes r1) (
        rw (first_section_lem first w1 refl refl c.holds_version) (
          rw (next_sections_lem rest w2 refl (omega arith) (omega (arith, c.all_sections))) (
            rw
              (end_lem end (with_sections rest w2) end_bytes refl (omega (arith, c.all_sections))
                c.fits r2)
              (record {
                response = refl;
                state = refl;
                image = refl;
                standby = refl;
                active = refl;
                committed = refl;
                mib_data_sync = omega arith;
              }))))
