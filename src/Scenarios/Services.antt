-- ===== src/Scenarios/Services.antt =====
-- A service at work.
use g_simulator.Prelude.{◌≡◌, refl, true, false, List, [], ◌∷◌, some, arith}
use g_simulator.Go.{ok, blocks, unmade, ◌>>=◌, close}
use g_simulator.Fsm.{table_engine}
use g_simulator.Service.{Service, initialize, disable, handle_auth, eapol_timeout}
use g_simulator.Service.Machines.Internal.{ServiceState, ServiceTx, service_event-next}
use g_simulator.Service.Machines.Eapol.{EapolState}
use g_simulator.Service.Wellformed.{
  Keeps, Op, initializes, disables, auths, dhcps, eapol_times_out, run, run-IsWellformed,
}
use g_simulator.Service.Starts.{started_eapol, handle_auth_lem, restart_lem, eapol_timeout_stuck}
use g_simulator.Scenarios.Values.{hsia, hsia-IsWellformed}

abbrev a_day : List Op
a_day = auths ∷ dhcps 0 900 ∷ eapol_times_out false ∷ disables ∷ initializes 8 ∷ auths ∷ []

run-IsWellformed_example : Keeps (run table_engine a_day hsia)
run-IsWellformed_example = run-IsWellformed table_engine a_day hsia hsia-IsWellformed

handle_auth_lem_example : handle_auth table_engine hsia ≡ started_eapol hsia
handle_auth_lem_example = handle_auth_lem table_engine hsia hsia-IsWellformed

restart_lem_example :
    (do t ← disable table_engine hsia; initialize table_engine 8 t)
    ≡ ok (record hsia { stream = some 8 })
restart_lem_example = restart_lem table_engine hsia 8 hsia-IsWellformed refl

-- The same service while it authenticates.
abbrev busy : Service
busy = record hsia { eapol_state = EapolState.eap_start_sent }

abbrev down : Service
down = record hsia { internal_state = ServiceState.disabled; channel = unmade; packet_ch = unmade }

hsia-disable : disable table_engine hsia ≡ ok down
unfolding disable close
hsia-disable =
    ground (arith, service_event-next table_engine ServiceState.initialized ServiceTx.disable)

eapol_timeout_stuck_example : eapol_timeout table_engine true down ≡ blocks
eapol_timeout_stuck_example =
    eapol_timeout_stuck table_engine hsia down hsia-IsWellformed refl hsia-disable
