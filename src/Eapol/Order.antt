-- ===== src/Eapol/Order.antt =====
-- In which order the packets of an EAPOL exchange must come
-- (internal/bbsim/responders/eapol/eapol.go, HandleNextPacket).
use g_simulator.Prelude.{
  ◌∙◌, ℕ, ◌≤◌, ◌≡◌, refl, true, List, [], ◌∷◌, Option, none, some, All, length, arith,
}
use g_simulator.Go.{Result, ok, ◌>>=◌, Yields, Yields-bind, Yields-map}
use g_simulator.Fsm.{Engine}
use g_simulator.Service.Machines.Eapol.{EapolState, EapolTx, eapol_event-next}
use g_simulator.Service.{fire_eapol}
use g_simulator.Eapol.{
  Eap, EapCode, EapType, Place, Exchange, request, response, success, identity, otp, none_type,
  challenge_of, get_md5_data, fire_machine, handle_identity_request, handle_challenge_request,
  handle_success, handle_eap, handle_eapol_start, handle_next_packet, Packet, eap_packet,
}

-- The packets of a server that a service reads; it ignores the others.
pub data Kind : Type 0 where
  identity_request challenge_request success_packet : Kind

abbrev pub kind_of : EapCode → EapType → Option Kind
kind_of request identity = some identity_request
kind_of request otp = some challenge_request
kind_of success none_type = some success_packet
kind_of _ _ = none

-- The kinds that are read, in their order.
abbrev pub kinds : List Eap → List Kind
kinds [] = []
kinds (e ∷ es) = elim (kind_of e.code e.kind) [ none ↦ kinds es | some k ↦ k ∷ kinds es ]

-- The state after packets of these kinds, from the start of the exchange.
abbrev pub reached : List Kind → EapolState
reached [] = EapolState.eap_start_sent
reached (identity_request ∷ []) = EapolState.eap_response_identity_sent
reached (identity_request ∷ challenge_request ∷ []) = EapolState.eap_response_challenge_sent
reached (identity_request ∷ challenge_request ∷ success_packet ∷ _) =
    EapolState.eap_response_success_received
reached _ = EapolState.auth_failed

-- What a server sends to a service: no response to it, and a challenge with a challenge in it.
abbrev pub IsFromServer : EapCode → EapType → List ℕ → Type 0
IsFromServer response _ c = ⊥
IsFromServer request otp c = 6 ≤ length c
IsFromServer _ _ c = Unit

challenge-Yields : (c : List ℕ) → 6 ≤ length c → Yields (λ d. Unit {0}) (challenge_of c)
unfolding challenge_of
challenge-Yields (_ ∷ _ ∷ _ ∷ _ ∷ _ ∷ _ ∷ rest) h = tt
challenge-Yields [] h = absurd (ground arith)
challenge-Yields (_ ∷ []) h = absurd (ground arith)
challenge-Yields (_ ∷ _ ∷ []) h = absurd (ground arith)
challenge-Yields (_ ∷ _ ∷ _ ∷ []) h = absurd (ground arith)
challenge-Yields (_ ∷ _ ∷ _ ∷ _ ∷ []) h = absurd (ground arith)
challenge-Yields (_ ∷ _ ∷ _ ∷ _ ∷ _ ∷ []) h = absurd (ground arith)

-- One step of the exchange.
abbrev step : EapolState → Kind → EapolState
step EapolState.auth_failed k = EapolState.auth_failed
step EapolState.eap_response_success_received k = EapolState.eap_response_success_received
step EapolState.eap_start_sent identity_request = EapolState.eap_response_identity_sent
step EapolState.eap_response_identity_sent challenge_request =
    EapolState.eap_response_challenge_sent
step EapolState.eap_response_challenge_sent success_packet =
    EapolState.eap_response_success_received
step _ k = EapolState.auth_failed

-- The start of the exchange was sent.
abbrev IsUnderWay : EapolState → Type 0
IsUnderWay EapolState.created = ⊥
IsUnderWay EapolState.auth_started = ⊥
IsUnderWay _ = Unit

step-IsUnderWay : (s : EapolState) (k : Kind) → IsUnderWay (step s k)
step-IsUnderWay s k = ground arith

abbrev steps : EapolState → List Kind → EapolState
steps s [] = s
steps s (k ∷ ks) = steps (step s k) ks

failed-stays : (ks : List Kind) → steps EapolState.auth_failed ks ≡ EapolState.auth_failed
failed-stays [] = refl
failed-stays (k ∷ ks) = failed-stays ks

ended-stays :
    (ks : List Kind)
    → steps EapolState.eap_response_success_received ks ≡ EapolState.eap_response_success_received
ended-stays [] = refl
ended-stays (k ∷ ks) = ended-stays ks

steps-reached : (ks : List Kind) → steps EapolState.eap_start_sent ks ≡ reached ks
steps-reached [] = refl
steps-reached (identity_request ∷ []) = refl
steps-reached (identity_request ∷ challenge_request ∷ []) = refl
steps-reached (identity_request ∷ challenge_request ∷ success_packet ∷ ks) = ended-stays ks
steps-reached (identity_request ∷ challenge_request ∷ identity_request ∷ ks) = failed-stays ks
steps-reached (identity_request ∷ challenge_request ∷ challenge_request ∷ ks) = failed-stays ks
steps-reached (identity_request ∷ identity_request ∷ ks) = failed-stays ks
steps-reached (identity_request ∷ success_packet ∷ ks) = failed-stays ks
steps-reached (challenge_request ∷ ks) = failed-stays ks
steps-reached (success_packet ∷ ks) = failed-stays ks

-- The packet with this EAP layer.
abbrev pub packet_of : Eap → Packet
packet_of e = record { eap = some e; eapol = some eap_packet }

-- The packets are handled one after the other.
abbrev pub handle_all : Engine → (List ℕ → List ℕ) → Place → List Eap → Exchange → Result Exchange
handle_all engine md5 place [] x = ok x
handle_all engine md5 place (e ∷ es) x = do
  y ← handle_next_packet engine md5 place true (packet_of e) x
  handle_all engine md5 place es y

module _ (engine : Engine) (md5 : List ℕ → List ℕ) (place : Place) where
  -- The state after a packet of this kind.
  abbrev Steps : EapolState → Option Kind → Exchange → Type 0
  Steps s none y = y.service.eapol_state ≡ s
  Steps s (some k) y = y.service.eapol_state ≡ step s k

  identity-Steps :
      (e : Eap) (x : Exchange)
      → IsUnderWay x.service.eapol_state
      → Yields
          (Steps x.service.eapol_state (some identity_request))
          (handle_identity_request engine md5 place true e x)
  unfolding handle_identity_request fire_machine fire_eapol
  identity-Steps e x u = ground (
    arith,
    eapol_event-next engine x.service.eapol_state EapolTx.fail_auth,
    eapol_event-next engine x.service.eapol_state EapolTx.response_identity_sent,
  )

  challenge-Steps :
      (e : Eap) (x : Exchange)
      → IsUnderWay x.service.eapol_state
      → 6 ≤ length e.contents
      → Yields
          (Steps x.service.eapol_state (some challenge_request))
          (handle_challenge_request engine md5 place true e x)
  unfolding handle_challenge_request fire_machine fire_eapol get_md5_data
  challenge-Steps e x u h = ground (
    arith,
    challenge-Yields e.contents h,
    eapol_event-next engine x.service.eapol_state EapolTx.fail_auth,
    eapol_event-next engine x.service.eapol_state EapolTx.response_challenge_sent,
  )

  success-Steps :
      (x : Exchange)
      → IsUnderWay x.service.eapol_state
      → Yields
          (Steps x.service.eapol_state (some success_packet))
          (handle_success engine md5 place true x)
  unfolding handle_success fire_machine fire_eapol
  success-Steps x u = ground (
    arith,
    eapol_event-next engine x.service.eapol_state EapolTx.fail_auth,
    eapol_event-next engine x.service.eapol_state EapolTx.response_success_received,
  )

  eap-Steps :
      (c : EapCode) (k : EapType) (e : Eap) (x : Exchange)
      → IsUnderWay x.service.eapol_state
      → IsFromServer c k e.contents
      → Yields
          (Steps x.service.eapol_state (kind_of c k))
          (handle_eap engine md5 place true c k e x)
  unfolding handle_eap
  eap-Steps request identity e x u h = identity-Steps e x u
  eap-Steps request otp e x u h = challenge-Steps e x u h
  eap-Steps success none_type e x u h = success-Steps x u
  eap-Steps response k e x u h = absurd h
  eap-Steps _ _ e x u h = refl

  next-IsUnderWay :
      (o : Option Kind) (s : EapolState) (y : Exchange)
      → IsUnderWay s
      → Steps s o y
      → IsUnderWay y.service.eapol_state
  next-IsUnderWay none s y u h = ground (arith, h)
  next-IsUnderWay (some k) s y u h = ground (arith, h, step-IsUnderWay s k)

  steps-kinds :
      (o : Option Kind) (s : EapolState) (y : Exchange) (ks : List Kind)
      → Steps s o y
      → steps y.service.eapol_state ks ≡ steps s (elim o [ none ↦ ks | some k ↦ k ∷ ks ])
  steps-kinds none s y ks h = ground (arith, h)
  steps-kinds (some k) s y ks h = ground (arith, h)

  start-Yields :
      (x : Exchange)
      → x.service.eapol_state ≡ EapolState.auth_started
      → Yields
          (λ y. y.service.eapol_state ≡ EapolState.eap_start_sent)
          (handle_eapol_start engine md5 place true x)
  unfolding handle_eapol_start fire_machine fire_eapol
  start-Yields x s =
      ground (arith, eapol_event-next engine EapolState.auth_started EapolTx.start_sent)

  all-Steps :
      (es : List Eap) (x : Exchange)
      → IsUnderWay x.service.eapol_state
      → All (λ e. IsFromServer e.code e.kind e.contents) es
      → Yields
          (λ y. y.service.eapol_state ≡ steps x.service.eapol_state (kinds es))
          (handle_all engine md5 place es x)
  unfolding handle_next_packet
  all-Steps [] x u h = refl
  all-Steps (e ∷ es) x u h =
      Yields-bind (Steps x.service.eapol_state (kind_of e.code e.kind)) _
        (handle_next_packet engine md5 place true (packet_of e) x) _
        (eap-Steps e.code e.kind e x u h.0)
        λ y k.
          Yields-map _ _ (handle_all engine md5 place es y)
            (λ z l. l ∙ steps-kinds (kind_of e.code e.kind) x.service.eapol_state y (kinds es) k)
            (all-Steps es y (next-IsUnderWay (kind_of e.code e.kind) x.service.eapol_state y u k)
              h.1)

  -- The exchange from the message StartEAPOL of a service whose authentication has started, if the stream
  -- takes all packets: whatever a server sends after that (requests of identity, challenges, success, and
  -- packets that are ignored), the service does not panic, and it is authenticated exactly if the first
  -- three packets read are a request of identity, a challenge and a success; it waits for the next while
  -- there are fewer, and any other order has failed the authentication, for good.
  pub exchange_lem :
      (es : List Eap) (x : Exchange)
      → x.service.eapol_state ≡ EapolState.auth_started
      → All (λ e. IsFromServer e.code e.kind e.contents) es
      → Yields
          (λ y. y.service.eapol_state ≡ reached (kinds es))
          (do y ← handle_eapol_start engine md5 place true x; handle_all engine md5 place es y)
  exchange_lem es x s h =
      Yields-bind (λ y. y.service.eapol_state ≡ EapolState.eap_start_sent) _
        (handle_eapol_start engine md5 place true x) _ (start-Yields x s)
        λ y e.
          Yields-map _ _ (handle_all engine md5 place es y)
            (λ z l. ground (arith, l, e, steps-reached (kinds es)))
            (all-Steps es y (ground (arith, e)) h)
