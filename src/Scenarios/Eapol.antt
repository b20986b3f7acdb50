-- ===== src/Scenarios/Eapol.antt =====
-- An EAPOL exchange with a packet that is ignored in between.
use g_simulator.Prelude.{ℕ, ◌≡◌, refl, true, List, [], ◌∷◌, arith}
use g_simulator.Go.{◌>>=◌, Yields}
use g_simulator.Fsm.{table_engine}
use g_simulator.Service.Machines.Eapol.{EapolState}
use g_simulator.Eapol.{
  Eap, EapCode, EapType, Place, Exchange, request, success, failure, identity, otp, none_type,
  handle_eapol_start,
}
use g_simulator.Eapol.Order.{reached, kinds, handle_all, exchange_lem}
use g_simulator.Scenarios.Values.{hsia}

abbrev place1 : Place
place1 = record { olt_id = 0; intf_id = 0; onu_id = 1; uni_id = 0; port_no = 16 }

abbrev eap : EapCode → EapType → List ℕ → Eap
eap code kind contents = record { code = code; id = 3; kind = kind; contents = contents }

abbrev dialogue : List Eap
dialogue =
    eap request identity (1 ∷ 3 ∷ 0 ∷ 5 ∷ 1 ∷ [])
    ∷ eap failure none_type (4 ∷ 3 ∷ 0 ∷ 4 ∷ [])
    ∷ eap request otp (1 ∷ 3 ∷ 0 ∷ 8 ∷ 4 ∷ 2 ∷ 7 ∷ 9 ∷ [])
    ∷ eap success none_type (3 ∷ 3 ∷ 0 ∷ 4 ∷ [])
    ∷ []

abbrev starting : Exchange
starting = record { service = record hsia { eapol_state = EapolState.auth_started }; sent = [] }

exchange_lem_example :
    Yields
      (λ y. y.service.eapol_state ≡ reached (kinds dialogue))
      (do
        y ← handle_eapol_start table_engine (λ b. b) place1 true starting
        handle_all table_engine (λ b. b) place1 dialogue y)
exchange_lem_example =
    exchange_lem table_engine (λ b. b) place1 dialogue starting refl
      (tt, (tt, (omega arith, (tt, tt))))

dialogue-success : reached (kinds dialogue) ≡ EapolState.eap_response_success_received
dialogue-success = refl
