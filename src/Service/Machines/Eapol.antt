-- ===== src/Service/Machines/Eapol.antt =====
-- `EapolState` of a service (internal/bbsim/devices/services.go, lines 162-171; the names are those of
-- internal/bbsim/responders/eapol/eapol.go).
use g_simulator.Prelude.{◌≡◌, refl, ◌∙◌, List, [], ◌∷◌}
use g_simulator.Fsm.{Row, Outcome, refused, moves, outcome, Engine}

pub data EapolState : Type 0 where
  created auth_started eap_start_sent eap_response_identity_sent eap_response_challenge_sent
        eap_response_success_received auth_failed :
      EapolState

pub data EapolTx : Type 0 where
  start_auth start_sent response_identity_sent response_challenge_sent response_success_received
        fail_auth :
      EapolTx

pub EapolState-discrete : Discrete EapolState
EapolState-discrete = hlevel

pub EapolTx-discrete : Discrete EapolTx
EapolTx-discrete = hlevel

row : EapolTx → List EapolState → EapolState → Row EapolState EapolTx
row name src dst = record { name = name; src = src; dst = dst }

pub eapol_events : List (Row EapolState EapolTx)
unfolding row
eapol_events =
    row start_auth (created ∷ eap_response_success_received ∷ auth_failed ∷ []) auth_started
    ∷ row start_sent (auth_started ∷ []) eap_start_sent
    ∷ row response_identity_sent (eap_start_sent ∷ []) eap_response_identity_sent
    ∷ row response_challenge_sent (eap_response_identity_sent ∷ []) eap_response_challenge_sent
    ∷ row response_success_received (eap_response_challenge_sent ∷ []) eap_response_success_received
    ∷ row fail_auth
        (auth_started ∷ eap_start_sent ∷ eap_response_identity_sent ∷ eap_response_challenge_sent
          ∷ [])
        auth_failed
    ∷ []

-- The same table read as a function.
abbrev pub next : EapolState → EapolTx → Outcome EapolState
next created start_auth = moves auth_started
next eap_response_success_received start_auth = moves auth_started
next auth_failed start_auth = moves auth_started
next auth_started start_sent = moves eap_start_sent
next eap_start_sent response_identity_sent = moves eap_response_identity_sent
next eap_response_identity_sent response_challenge_sent = moves eap_response_challenge_sent
next eap_response_challenge_sent response_success_received = moves eap_response_success_received
next auth_started fail_auth = moves auth_failed
next eap_start_sent fail_auth = moves auth_failed
next eap_response_identity_sent fail_auth = moves auth_failed
next eap_response_challenge_sent fail_auth = moves auth_failed
next _ _ = refused

outcome-next :
    (s : EapolState) (tx : EapolTx)
    → outcome EapolState-discrete EapolTx-discrete eapol_events s tx ≡ next s tx
unfolding eapol_events EapolState-discrete EapolTx-discrete
outcome-next created start_auth = refl
outcome-next created _ = refl
outcome-next auth_started start_auth = refl
outcome-next auth_started _ = refl
outcome-next eap_start_sent start_auth = refl
outcome-next eap_start_sent _ = refl
outcome-next eap_response_identity_sent start_auth = refl
outcome-next eap_response_identity_sent _ = refl
outcome-next eap_response_challenge_sent start_auth = refl
outcome-next eap_response_challenge_sent _ = refl
outcome-next eap_response_success_received start_auth = refl
outcome-next eap_response_success_received _ = refl
outcome-next auth_failed start_auth = refl
outcome-next auth_failed _ = refl

module _ (engine : Engine) where
  unfoldable pub eapol_event : EapolState → EapolTx → Outcome EapolState
  eapol_event s tx = engine.fire EapolState-discrete EapolTx-discrete eapol_events s tx

  pub eapol_event-next : (s : EapolState) (tx : EapolTx) → eapol_event s tx ≡ next s tx
  unfolding eapol_event
  eapol_event-next s tx = engine.fire_lem _ _ eapol_events s tx ∙ outcome-next s tx
