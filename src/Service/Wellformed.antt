-- ===== src/Service/Wellformed.antt =====
-- The channels of a service through its life (internal/bbsim/devices/services.go): no operation
-- closes a channel that is not there, and none sends on a closed one.
use g_simulator.Prelude.{ℕ, Bool, true, false, List, [], ◌∷◌, if◌then◌else◌, arith}
use g_simulator.Go.{Result, ok, blocks, panics, Chan, unmade, received, ◌>>=◌, send, close}
use g_simulator.Fsm.{Engine}
use g_simulator.Service.Machines.Internal.{ServiceState, ServiceTx, service_event-next}
use g_simulator.Service.Machines.Eapol.{EapolTx, eapol_event-next}
use g_simulator.Service.Machines.Dhcp.{DhcpTx, dhcp_event-next}
use g_simulator.Service.Machines.Igmp.{IgmpTx, igmp_event-next}
use g_simulator.Service.{
  Service, drop_error, initialize, disable, fire_eapol, fire_dhcp, fire_igmp, handle_auth,
  handle_dhcp, eapol_timeout, dhcp_timeout,
}

-- The channel fits the state: made and being received from if the service is initialized, nil if not.
abbrev pub Fits {ℓ} : {M : Type ℓ} → ServiceState → Chan M → Type 0
Fits ServiceState.initialized (received taken) = Unit
Fits ServiceState.initialized _ = ⊥
Fits ServiceState.created unmade = Unit
Fits ServiceState.created _ = ⊥
Fits ServiceState.disabled unmade = Unit
Fits ServiceState.disabled _ = ⊥

pub record IsWellformed (s : Service) : Type 0 where
  pub channel_fits : Fits s.internal_state s.channel
  pub packet_ch_fits : Fits s.internal_state s.packet_ch

-- The operation does not panic, and what it returns is well-formed.
abbrev pub Keeps : Result Service → Type 0
Keeps (ok s) = IsWellformed s
Keeps blocks = Unit
Keeps panics = ⊥

-- Every operation on a service, the machines' own events included.
pub data Op : Type 0 where
  initializes : ℕ → Op
  disables : Op
  auths : Op
  dhcps : ℕ → ℕ → Op
  eapol_times_out dhcp_times_out : Bool → Op
  eapol_fires : EapolTx → Op
  dhcp_fires : DhcpTx → Op
  igmp_fires : IgmpTx → List ℕ → Op

module _ (engine : Engine) where
  pub step : Op → Service → Result Service
  step (initializes stream) s = initialize engine stream s
  step disables s = disable engine s
  step auths s = handle_auth engine s
  step (dhcps o_pbit o_vid) s = handle_dhcp engine o_pbit o_vid s
  step (eapol_times_out retry) s = eapol_timeout engine retry s
  step (dhcp_times_out retry) s = dhcp_timeout engine retry s
  step (eapol_fires tx) s = drop_error (fire_eapol engine tx s)
  step (dhcp_fires tx) s = drop_error (fire_dhcp engine tx s)
  step (igmp_fires tx group) s = drop_error (fire_igmp engine tx group s)

  pub run : List Op → Service → Result Service
  run [] s = ok s
  run (op ∷ ops) s = do t ← step op s; run ops t

  initialize-Keeps :
      (stream : ℕ) (s : Service) → IsWellformed s → Keeps (initialize engine stream s)
  unfolding initialize
  initialize-Keeps stream s w =
      ground (arith, service_event-next engine s.internal_state ServiceTx.initialize)

  disable-Keeps : (s : Service) → IsWellformed s → Keeps (disable engine s)
  unfolding disable close
  disable-Keeps s w = ground (arith, service_event-next engine s.internal_state ServiceTx.disable)

  fire_eapol-Keeps :
      (tx : EapolTx) (s : Service) → IsWellformed s → Keeps (drop_error (fire_eapol engine tx s))
  unfolding fire_eapol send
  fire_eapol-Keeps tx s w = ground (arith, eapol_event-next engine s.eapol_state tx)

  fire_dhcp-Keeps :
      (tx : DhcpTx) (s : Service) → IsWellformed s → Keeps (drop_error (fire_dhcp engine tx s))
  unfolding fire_dhcp send
  fire_dhcp-Keeps tx s w = ground (arith, dhcp_event-next engine s.dhcp_state tx)

  fire_igmp-Keeps :
      (tx : IgmpTx) (group : List ℕ) (s : Service)
      → IsWellformed s
      → Keeps (drop_error (fire_igmp engine tx group s))
  unfolding fire_igmp send
  fire_igmp-Keeps tx group s w = ground (arith, igmp_event-next engine s.igmp_state tx)

  handle_auth-Keeps : (s : Service) → IsWellformed s → Keeps (handle_auth engine s)
  unfolding handle_auth
  handle_auth-Keeps s w = ground (arith, fire_eapol-Keeps EapolTx.start_auth s)

  handle_dhcp-Keeps :
      (o_pbit o_vid : ℕ) (s : Service) → IsWellformed s → Keeps (handle_dhcp engine o_pbit o_vid s)
  unfolding handle_dhcp
  handle_dhcp-Keeps o_pbit o_vid s w = ground (arith, fire_dhcp-Keeps DhcpTx.start_dhcp s)

  -- A second event, if the configuration asks for it.
  retry-Keeps :
      (again : Bool) (r : Result Service) (f : Service → Result Service)
      → Keeps r
      → ((s : Service) → IsWellformed s → Keeps (f s))
      → Keeps (do t ← r; if again then f t else ok t)
  retry-Keeps true (ok s) f h k = k s h
  retry-Keeps false (ok s) f h k = h
  retry-Keeps again blocks f h k = tt
  retry-Keeps again panics f h k = h

  eapol_timeout-Keeps :
      (retry : Bool) (s : Service) → IsWellformed s → Keeps (eapol_timeout engine retry s)
  unfolding eapol_timeout
  eapol_timeout-Keeps retry s w = ground (
    arith,
    retry-Keeps retry (drop_error (fire_eapol engine EapolTx.fail_auth s))
        (λ t. drop_error (fire_eapol engine EapolTx.start_auth t))
        (fire_eapol-Keeps EapolTx.fail_auth s w) (fire_eapol-Keeps EapolTx.start_auth),
  )

  dhcp_timeout-Keeps :
      (retry : Bool) (s : Service) → IsWellformed s → Keeps (dhcp_timeout engine retry s)
  unfolding dhcp_timeout
  dhcp_timeout-Keeps retry s w = ground (
    arith,
    retry-Keeps retry (drop_error (fire_dhcp engine DhcpTx.fail_dhcp s))
        (λ t. drop_error (fire_dhcp engine DhcpTx.start_dhcp t))
        (fire_dhcp-Keeps DhcpTx.fail_dhcp s w) (fire_dhcp-Keeps DhcpTx.start_dhcp),
  )

  step-Keeps : (op : Op) (s : Service) → IsWellformed s → Keeps (step op s)
  unfolding step
  step-Keeps (initializes stream) s w = initialize-Keeps stream s w
  step-Keeps disables s w = disable-Keeps s w
  step-Keeps auths s w = handle_auth-Keeps s w
  step-Keeps (dhcps o_pbit o_vid) s w = handle_dhcp-Keeps o_pbit o_vid s w
  step-Keeps (eapol_times_out retry) s w = eapol_timeout-Keeps retry s w
  step-Keeps (dhcp_times_out retry) s w = dhcp_timeout-Keeps retry s w
  step-Keeps (eapol_fires tx) s w = fire_eapol-Keeps tx s w
  step-Keeps (dhcp_fires tx) s w = fire_dhcp-Keeps tx s w
  step-Keeps (igmp_fires tx group) s w = fire_igmp-Keeps tx group s w

  bind-Keeps :
      (r : Result Service) (f : Service → Result Service)
      → Keeps r
      → ((s : Service) → IsWellformed s → Keeps (f s))
      → Keeps (r >>= f)
  bind-Keeps (ok s) f h k = k s h
  bind-Keeps blocks f h k = tt
  bind-Keeps panics f h k = h

  -- From a well-formed service, no sequence of operations panics (none closes a nil or closed
  -- channel, sends on a closed one, or finds an argument of `Event` missing), and whatever it
  -- returns is well-formed: both channels are open exactly while the service is initialized.
  pub run-IsWellformed : (ops : List Op) (s : Service) → IsWellformed s → Keeps (run ops s)
  unfolding run
  run-IsWellformed [] s w = w
  run-IsWellformed (op ∷ ops) s w =
      bind-Keeps (step op s) (run ops) (step-Keeps op s w) (run-IsWellformed ops)
