-- ===== src/Onu/Machine.antt =====
-- The machine `InternalState` of an ONU (internal/bbsim/devices/onu.go, CreateONU).
use g_simulator.Prelude.{◌≡◌, refl, ◌∙◌, List, [], ◌∷◌}
use g_simulator.Fsm.{Row, Outcome, refused, moves, outcome, Engine}

pub data OnuState : Type 0 where
  created initialized discovered enabled disabled pon_disabled : OnuState
  image_download_started image_download_in_progress image_download_completed : OnuState
  image_download_error software_image_activated software_image_committed : OnuState
  eapol_flow_sent dhcp_flow_sent : OnuState

pub data OnuTx : Type 0 where
  initialize discover enable disable pon_disable : OnuTx
  start_image_download progress_image_download complete_image_download fail_image_download : OnuTx
  activate_image commit_image : OnuTx
  send_eapol_flow send_dhcp_flow : OnuTx

pub OnuState-discrete : Discrete OnuState
OnuState-discrete = hlevel

pub OnuTx-discrete : Discrete OnuTx
OnuTx-discrete = hlevel

row : OnuTx → List OnuState → OnuState → Row OnuState OnuTx
row name src dst = record { name = name; src = src; dst = dst }

pub onu_events : List (Row OnuState OnuTx)
unfolding row
onu_events =
    row initialize (created ∷ disabled ∷ pon_disabled ∷ []) initialized
    ∷ row discover (initialized ∷ []) discovered
    ∷ row enable (discovered ∷ pon_disabled ∷ []) enabled
    ∷ row disable
        (enabled ∷ pon_disabled ∷ software_image_activated ∷ image_download_error
          ∷ software_image_committed ∷ [])
        disabled
    ∷ row pon_disable
        (enabled ∷ software_image_activated ∷ image_download_error ∷ software_image_committed
          ∷ image_download_completed ∷ [])
        pon_disabled
    ∷ row start_image_download
        (enabled ∷ image_download_completed ∷ image_download_error ∷ software_image_committed ∷ [])
        image_download_started
    ∷ row progress_image_download (image_download_started ∷ []) image_download_in_progress
    ∷ row complete_image_download (image_download_in_progress ∷ []) image_download_completed
    ∷ row fail_image_download (image_download_in_progress ∷ []) image_download_error
    ∷ row activate_image (image_download_completed ∷ []) software_image_activated
    ∷ row commit_image (enabled ∷ []) software_image_committed
    ∷ row send_eapol_flow (initialized ∷ []) eapol_flow_sent
    ∷ row send_dhcp_flow (eapol_flow_sent ∷ []) dhcp_flow_sent
    ∷ []

-- The same table read as a function.
abbrev pub next : OnuState → OnuTx → Outcome OnuState
next created initialize = moves initialized
next disabled initialize = moves initialized
next pon_disabled initialize = moves initialized
next initialized discover = moves discovered
next discovered enable = moves enabled
next pon_disabled enable = moves enabled
next enabled disable = moves disabled
next pon_disabled disable = moves disabled
next software_image_activated disable = moves disabled
next image_download_error disable = moves disabled
next software_image_committed disable = moves disabled
next enabled pon_disable = moves pon_disabled
next software_image_activated pon_disable = moves pon_disabled
next image_download_error pon_disable = moves pon_disabled
next software_image_committed pon_disable = moves pon_disabled
next image_download_completed pon_disable = moves pon_disabled
next enabled start_image_download = moves image_download_started
next image_download_completed start_image_download = moves image_download_started
next image_download_error start_image_download = moves image_download_started
next software_image_committed start_image_download = moves image_download_started
next image_download_started progress_image_download = moves image_download_in_progress
next image_download_in_progress complete_image_download = moves image_download_completed
next image_download_in_progress fail_image_download = moves image_download_error
next image_download_completed activate_image = moves software_image_activated
next enabled commit_image = moves software_image_committed
next initialized send_eapol_flow = moves eapol_flow_sent
next eapol_flow_sent send_dhcp_flow = moves dhcp_flow_sent
next _ _ = refused

outcome-next :
    (s : OnuState) (tx : OnuTx)
    → outcome OnuState-discrete OnuTx-discrete onu_events s tx ≡ next s tx
unfolding onu_events OnuState-discrete OnuTx-discrete
outcome-next created initialize = refl
outcome-next created _ = refl
outcome-next initialized initialize = refl
outcome-next initialized _ = refl
outcome-next discovered initialize = refl
outcome-next discovered _ = refl
outcome-next enabled initialize = refl
outcome-next enabled _ = refl
outcome-next disabled initialize = refl
outcome-next disabled _ = refl
outcome-next pon_disabled initialize = refl
outcome-next pon_disabled _ = refl
outcome-next image_download_started initialize = refl
outcome-next image_download_started _ = refl
outcome-next image_download_in_progress initialize = refl
outcome-next image_download_in_progress _ = refl
outcome-next image_download_completed initialize = refl
outcome-next image_download_completed _ = refl
outcome-next image_download_error initialize = refl
outcome-next image_download_error _ = refl
outcome-next software_image_activated initialize = refl
outcome-next software_image_activated _ = refl
outcome-next software_image_committed initialize = refl
outcome-next software_image_committed _ = refl
outcome-next eapol_flow_sent initialize = refl
outcome-next eapol_flow_sent _ = refl
outcome-next dhcp_flow_sent initialize = refl
outcome-next dhcp_flow_sent _ = refl

module _ (engine : Engine) where
  unfoldable pub onu_event : OnuState → OnuTx → Outcome OnuState
  onu_event s tx = engine.fire OnuState-discrete OnuTx-discrete onu_events s tx

  pub onu_event-next : (s : OnuState) (tx : OnuTx) → onu_event s tx ≡ next s tx
  unfolding onu_event
  onu_event-next s tx = engine.fire_lem _ _ onu_events s tx ∙ outcome-next s tx
