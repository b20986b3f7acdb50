-- ===== src/Service/Machines/Internal.antt =====
-- `InternalState` of a service (internal/bbsim/devices/services.go, lines 122-127).
use g_simulator.Prelude.{◌≡◌, refl, ◌∙◌, List, [], ◌∷◌}
use g_simulator.Fsm.{Row, Outcome, refused, moves, outcome, Engine}

pub data ServiceState : Type 0 where
  created initialized disabled : ServiceState

pub data ServiceTx : Type 0 where
  initialize disable : ServiceTx

pub ServiceState-discrete : Discrete ServiceState
ServiceState-discrete = hlevel

pub ServiceTx-discrete : Discrete ServiceTx
ServiceTx-discrete = hlevel

row : ServiceTx → List ServiceState → ServiceState → Row ServiceState ServiceTx
row name src dst = record { name = name; src = src; dst = dst }

pub service_events : List (Row ServiceState ServiceTx)
unfolding row
service_events =
    row initialize (created ∷ disabled ∷ []) initialized
    ∷ row disable (initialized ∷ []) disabled
    ∷ []

-- The same table read as a function.
abbrev pub next : ServiceState → ServiceTx → Outcome ServiceState
next created initialize = moves initialized
next disabled initialize = moves initialized
next initialized disable = moves disabled
next _ _ = refused

outcome-next :
    (s : ServiceState) (tx : ServiceTx)
    → outcome ServiceState-discrete ServiceTx-discrete service_events s tx ≡ next s tx
unfolding service_events ServiceState-discrete ServiceTx-discrete
outcome-next created initialize = refl
outcome-next created _ = refl
outcome-next initialized initialize = refl
outcome-next initialized _ = refl
outcome-next disabled initialize = refl
outcome-next disabled _ = refl

module _ (engine : Engine) where
  unfoldable pub service_event : ServiceState → ServiceTx → Outcome ServiceState
  service_event s tx = engine.fire ServiceState-discrete ServiceTx-discrete service_events s tx

  pub service_event-next : (s : ServiceState) (tx : ServiceTx) → service_event s tx ≡ next s tx
  unfolding service_event
  service_event-next s tx = engine.fire_lem _ _ service_events s tx ∙ outcome-next s tx
