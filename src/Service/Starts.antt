-- ===== src/Service/Starts.antt =====
-- When a service starts EAPOL and DHCP, and what a restart of the service leaves
-- (internal/bbsim/devices/services.go: HandleAuth, HandleDhcp, Initialize, Disable, the timers).
use g_simulator.Prelude.{ℕ, ◌≡◌, Bool, true, false, ◌&&◌, ◌++◌, [], ◌∷◌, some, if◌then◌else◌, arith}
use g_simulator.Go.{Result, ok, blocks, received, ◌>>=◌, send, close}
use g_simulator.Messages.{start_eapol, start_dhcp}
use g_simulator.Fsm.{Engine}
use g_simulator.Service.Machines.Internal.{ServiceState, ServiceTx, service_event-next}
use g_simulator.Service.Machines.Eapol.{EapolTx, EapolState, eapol_event-next}
use g_simulator.Service.Machines.Dhcp.{DhcpState}
use g_simulator.Service.Wellformed.{IsWellformed}
use g_simulator.Service.{Service, initialize, disable, fire_eapol, handle_auth, eapol_timeout}

-- The states from which a new attempt may start.
abbrev pub eapol_idle : EapolState → Bool
eapol_idle EapolState.created = true
eapol_idle EapolState.eap_response_success_received = true
eapol_idle EapolState.auth_failed = true
eapol_idle _ = false

abbrev pub dhcp_idle : DhcpState → Bool
dhcp_idle DhcpState.created = true
dhcp_idle DhcpState.dhcp_ack_received = true
dhcp_idle DhcpState.dhcp_failed = true
dhcp_idle _ = false

-- The request goes to the receiver of an initialized service; without one the sender waits.
abbrev pub started_eapol : Service → Result Service
started_eapol s = elim s.channel [
  | received taken ↦ ok (record s {
    eapol_state = EapolState.auth_started;
    channel = received (taken ++ start_eapol ∷ []);
  })
  | _ ↦ blocks
]

abbrev pub started_dhcp : Service → Result Service
started_dhcp s = elim s.channel [
  | received taken ↦ ok (record s {
    dhcp_state = DhcpState.dhcp_started;
    channel = received (taken ++ start_dhcp ∷ []);
  })
  | _ ↦ blocks
]

module _ (engine : Engine) where
  -- For a well-formed service: authentication starts, with one StartEAPOL message, exactly when the
  -- service needs EAPOL and no attempt is running; otherwise nothing changes. If it should start
  -- and the service is not initialized, the caller waits for ever.
  pub handle_auth_lem :
      (s : Service)
      → IsWellformed s
      → handle_auth engine s
        ≡ (if s.needs_eapol && eapol_idle s.eapol_state then started_eapol s else ok s)
  unfolding handle_auth fire_eapol send
  handle_auth_lem s w = ground (arith, eapol_event-next engine s.eapol_state EapolTx.start_auth)

  -- Disabling a well-formed, initialized service and initializing it again resets EAPOL and DHCP, gives it
  -- fresh channels and the new stream, and changes nothing else: IGMP stays in the state it had.
  pub restart_lem :
      (s : Service) (stream : ℕ)
      → IsWellformed s
      → s.internal_state ≡ ServiceState.initialized
      → (do t ← disable engine s; initialize engine stream t)
        ≡ ok (record s {
          eapol_state = EapolState.created;
          dhcp_state = DhcpState.created;
          channel = received [];
          packet_ch = received [];
          stream = some stream;
        })
  unfolding disable initialize close
  restart_lem s stream w h = ground (
    arith,
    service_event-next engine ServiceState.initialized ServiceTx.disable,
    service_event-next engine ServiceState.disabled ServiceTx.initialize,
  )

  -- In a well-formed, initialized service, a timer that runs out while EAPOL is under way fails the
  -- attempt; with `AuthRetry` it starts the next one, with one StartEAPOL message.
  pub eapol_timeout_lem :
      (s : Service) (retry : Bool)
      → IsWellformed s
      → s.internal_state ≡ ServiceState.initialized
      → eapol_idle s.eapol_state ≡ false
      → eapol_timeout engine retry s ≡ (
          if retry then started_eapol s else ok (record s { eapol_state = EapolState.auth_failed }))
  unfolding eapol_timeout fire_eapol send
  eapol_timeout_lem s retry w h i = ground (
    arith,
    eapol_event-next engine s.eapol_state EapolTx.fail_auth,
    eapol_event-next engine EapolState.auth_failed EapolTx.start_auth,
  )

  -- A timer that outlives its service: once a well-formed service was disabled, and as long as it
  -- is not initialized again, the timer of an earlier attempt waits for ever if `AuthRetry` is set.
  pub eapol_timeout_stuck :
      (s t : Service)
      → IsWellformed s
      → s.internal_state ≡ ServiceState.initialized
      → disable engine s ≡ ok t
      → eapol_timeout engine true t ≡ blocks
  unfolding disable close eapol_timeout fire_eapol send
  eapol_timeout_stuck s t w h e = ground (
    arith,
    service_event-next engine ServiceState.initialized ServiceTx.disable,
    eapol_event-next engine EapolState.created EapolTx.fail_auth,
    eapol_event-next engine EapolState.created EapolTx.start_auth,
  )
