-- ===== src/Onu/Omci/Versions.antt =====
-- The versions of the software images over Activate and Commit (internal/bbsim/devices/onu.go,
-- handleOmciRequest).
use g_simulator.Prelude.{ℕ, ◌+◌, ◌≡◌, refl, Bool, List, ◌∷◌, some, u8, arith}
use g_simulator.Go.{ok, Yields}
use g_simulator.Fsm.{Engine}
use g_simulator.Omci.Packet.{MeBase, OmciHeader, activate_software_request, commit_software_request}
use g_simulator.Omci.Responses.{
  Library, create_activate_software_response, create_commit_software_response,
}
use g_simulator.Onu.Machine.{OnuState, OnuTx, onu_event-next}
use g_simulator.Onu.State.{World, reboot}
use g_simulator.Onu.Events.{fire_onu}
use g_simulator.Onu.Omci.Base.{Handled, responds, fire_logged}
use g_simulator.Onu.Omci.Image.{handle_activate_software, handle_commit_software}
use g_simulator.Onu.Omci.Download.{message}

module _ (engine : Engine) (stream : ℕ) (is_mock : Bool) (lib : Library) (header : OmciHeader) where
  activate_lem :
      (b : MeBase) (w : World) (bytes : List ℕ)
      → w.onu.internal_state ≡ OnuState.image_download_completed
      → create_activate_software_response lib (activate_software_request b) header ≡ some bytes
      → handle_activate_software lib
          (message header (activate_software_request b))
          engine
          stream
          is_mock
          w
        ≡ ok (
          responds (some bytes),
          record w {
            onu = record w.onu {
              internal_state = OnuState.software_image_activated;
              mib_data_sync = u8 (w.onu.mib_data_sync + 1);
              active_image_entity_id = b.entity_instance;
              active_image_version = w.onu.standby_image_version;
              standby_image_version = w.onu.active_image_version;
            };
            spawned = reboot ∷ w.spawned;
          },
        )
  unfolding handle_activate_software fire_logged fire_onu
  activate_lem b w bytes h e =
      ground
        (arith, e, onu_event-next engine OnuState.image_download_completed OnuTx.activate_image)

  commit_lem :
      (b : MeBase) (w : World) (bytes : List ℕ)
      → w.onu.internal_state ≡ OnuState.enabled
      → create_commit_software_response lib (commit_software_request b) header ≡ some bytes
      → handle_commit_software lib
          (message header (commit_software_request b))
          engine
          stream
          is_mock
          w
        ≡ ok (
          responds (some bytes),
          record w {
            onu = record w.onu {
              internal_state = OnuState.software_image_committed;
              mib_data_sync = u8 (w.onu.mib_data_sync + 1);
              active_image_entity_id = b.entity_instance;
              committed_image_entity_id = b.entity_instance;
              standby_image_version = w.onu.committed_image_version;
              committed_image_version = w.onu.active_image_version;
            };
          },
        )
  unfolding handle_commit_software fire_logged fire_onu
  commit_lem b w bytes h e =
      ground (arith, e, onu_event-next engine OnuState.enabled OnuTx.commit_image)

  -- What a restart between Activate and Commit keeps.
  pub record IsRestarted (w v : World) : Type 0 where
    pub state : v.onu.internal_state ≡ OnuState.enabled
    pub active : v.onu.active_image_version ≡ w.onu.active_image_version
    pub committed : v.onu.committed_image_version ≡ w.onu.committed_image_version

  -- If the responses can be serialized, Activate after a completed download runs the downloaded version, starts a reboot and keeps the
  -- version that ran before as standby; Commit, when the ONU is enabled again with its versions kept,
  -- commits the version that runs, and the version committed before becomes the standby.
  pub upgrade_lem :
      (b c : MeBase) (w : World) (activate_bytes commit_bytes : List ℕ)
      → w.onu.internal_state ≡ OnuState.image_download_completed
      → create_activate_software_response lib (activate_software_request b) header
        ≡ some activate_bytes
      → create_commit_software_response lib (commit_software_request c) header ≡ some commit_bytes
      → Yields
          (λ (r : Handled × World).
            (r.1.onu.active_image_version ≡ w.onu.standby_image_version)
            × (r.1.onu.standby_image_version ≡ w.onu.active_image_version)
            × (r.1.spawned ≡ reboot ∷ w.spawned)
            × ((v : World)
                → IsRestarted r.1 v
                → Yields
                    (λ (s : Handled × World).
                      (s.1.onu.committed_image_version ≡ w.onu.standby_image_version)
                      × (s.1.onu.active_image_version ≡ w.onu.standby_image_version)
                      × (s.1.onu.standby_image_version ≡ w.onu.committed_image_version))
                    (handle_commit_software lib
                      (message header (commit_software_request c))
                      engine
                      stream
                      is_mock
                      v)))
          (handle_activate_software lib
            (message header (activate_software_request b))
            engine
            stream
            is_mock
            w)
  upgrade_lem b c w activate_bytes commit_bytes h e1 e2 =
      rw (activate_lem b w activate_bytes h e1) (
        refl,
        refl,
        refl,
        λ v k. rw (commit_lem c v commit_bytes k.state e2) (k.active, k.active, k.committed),
      )
