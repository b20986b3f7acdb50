-- ===== src/Scenarios/Downloads.antt =====
-- A software image of two sections, and one of a single section.
use g_simulator.Prelude.{◌*◌, ◌≡◌, refl, true, false, [], ◌∷◌, some, arith}
use g_simulator.Go.{ok, Yields}
use g_simulator.Fsm.{table_engine}
use g_simulator.Omci.Packet.{
  MeBase, EntityClass, Results, StartSoftwareDownloadRequest, DownloadSectionRequest,
  EndSoftwareDownloadRequest, start_software_download_request, download_section_request,
  end_software_download_request, activate_software_request, commit_software_request,
}
use g_simulator.Omci.Responses.{
  create_start_software_download_response, create_end_software_download_response,
  create_download_section_response, create_activate_software_response,
  create_commit_software_response,
}
use g_simulator.Omci.Sections.{sections_count}
use g_simulator.Onu.Machine.{OnuState}
use g_simulator.Onu.State.{World, reboot}
use g_simulator.Onu.Omci.Base.{Handled, responds}
use g_simulator.Onu.Omci.Image.{handle_activate_software, handle_commit_software}
use g_simulator.Onu.Omci.Download.{
  message, Fits, IsComplete, IsDownloaded, data_of, download, download-IsDownloaded,
}
use g_simulator.Onu.Omci.Versions.{IsRestarted, upgrade_lem}
use g_simulator.Onu.Omci.OneSection.{download_one, download_one_lem}
use g_simulator.Scenarios.Values.{onu1, world1, plain_library, header}

abbrev image : MeBase
image = record { entity_class = EntityClass.other_class 7; entity_instance = 1 }

abbrev start : StartSoftwareDownloadRequest
start = record { base = image; extended = false; window_size = 31; image_size = 40 }

abbrev first : DownloadSectionRequest
first = record {
  base = image;
  section_number = 0;
  section_data = 1 ∷ 2 ∷ 3 ∷ 4 ∷ 5 ∷ 6 ∷ 7 ∷ 8 ∷ 9 ∷ 10 ∷ 11 ∷ 12 ∷ 13 ∷ 14 ∷ 15 ∷ [];
}

abbrev second : DownloadSectionRequest
second = record first { section_number = 1 }

-- The checksum of 20 bytes, in network order.
abbrev end : EndSoftwareDownloadRequest
end = record { base = image; crc32 = 20 * 16777216; image_size = 20 }

two_sections : 2 ≡ sections_count start
unfolding sections_count
two_sections = refl

started_response :
    (s : StartSoftwareDownloadRequest)
    → create_start_software_download_response plain_library
        (start_software_download_request s)
        header
      ≡ ok (some (5 ∷ []))
unfolding create_start_software_download_response
started_response s = refl

ended_response :
    (e : EndSoftwareDownloadRequest)
    → create_end_software_download_response plain_library
        (end_software_download_request e)
        header
        Results.success
      ≡ some (5 ∷ [])
unfolding create_end_software_download_response
ended_response e = refl

end-Fits :
    Fits table_engine 7 true plain_library header end
      (data_of table_engine 7 true plain_library header (first ∷ second ∷ []))
end-Fits = record { not_empty = λ e. ground arith; enough = omega arith; crc = refl }

two-IsComplete : IsComplete table_engine 7 true plain_library header start first (second ∷ []) end
two-IsComplete = record {
  size_of_32_bits = omega arith;
  all_sections = two_sections;
  holds_version = omega arith;
  fits = end-Fits;
}

download-IsDownloaded_example :
    Yields
      (IsDownloaded table_engine 7 true plain_library header first
        (data_of table_engine 7 true plain_library header (first ∷ second ∷ []))
        (5 ∷ [])
        world1)
      (download table_engine 7 true plain_library header start (first ∷ second ∷ []) end world1)
download-IsDownloaded_example =
    download-IsDownloaded table_engine 7 true plain_library header start first (second ∷ []) end
      world1 (5 ∷ []) (5 ∷ []) refl two-IsComplete (started_response start) (ended_response end)

abbrev one : StartSoftwareDownloadRequest
one = record start { image_size = 15 }

one_section : sections_count one ≡ 1
unfolding sections_count
one_section = refl

abbrev end_one : EndSoftwareDownloadRequest
end_one = record { base = image; crc32 = 15 * 16777216; image_size = 15 }

end_one-Fits : Fits table_engine 7 true plain_library header end_one first.section_data
end_one-Fits = record { not_empty = λ e. ground arith; enough = omega arith; crc = refl }

section_response :
    create_download_section_response plain_library (download_section_request first) header
    ≡ some (5 ∷ [])
unfolding create_download_section_response
section_response = refl

download_one_lem_example :
    Yields
      (λ (r : Handled × World).
        (r.0 ≡ responds (some (5 ∷ [])))
        × (r.1.onu.internal_state ≡ OnuState.image_download_started)
        × (r.1.onu.standby_image_version ≡ []))
      (download_one table_engine 7 true plain_library header one first end_one world1)
download_one_lem_example =
    download_one_lem table_engine 7 true plain_library header one first end_one world1 (5 ∷ [])
      (5 ∷ []) (5 ∷ []) refl one_section end_one-Fits (started_response one) section_response
      (ended_response end_one)

activate_response :
    create_activate_software_response plain_library (activate_software_request image) header
    ≡ some (5 ∷ [])
unfolding create_activate_software_response
activate_response = refl

commit_response :
    create_commit_software_response plain_library (commit_software_request image) header
    ≡ some (5 ∷ [])
unfolding create_commit_software_response
commit_response = refl

abbrev completed : World
completed = record world1 {
  onu = record onu1 { internal_state = OnuState.image_download_completed };
}

upgrade_lem_example :
    Yields
      (λ (r : Handled × World).
        (r.1.onu.active_image_version ≡ 2 ∷ [])
        × (r.1.onu.standby_image_version ≡ 1 ∷ [])
        × (r.1.spawned ≡ reboot ∷ [])
        × ((v : World)
            → IsRestarted table_engine 7 true plain_library header r.1 v
            → Yields
                (λ (s : Handled × World).
                  (s.1.onu.committed_image_version ≡ 2 ∷ [])
                  × (s.1.onu.active_image_version ≡ 2 ∷ [])
                  × (s.1.onu.standby_image_version ≡ 1 ∷ []))
                (handle_commit_software plain_library
                  (message header (commit_software_request image))
                  table_engine
                  7
                  true
                  v)))
      (handle_activate_software plain_library
        (message header (activate_software_request image))
        table_engine
        7
        true
        completed)
upgrade_lem_example =
    upgrade_lem table_engine 7 true plain_library header image image completed (5 ∷ []) (5 ∷ [])
      refl activate_response commit_response
