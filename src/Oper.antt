-- ===== src/Oper.antt =====
-- The machine `OperState` that ONUs, UNI ports, POTS ports and PON ports carry
-- (internal/bbsim/devices/helpers.go, getOperStateFSM; uni_port.go and pots_port.go repeat its table).
use g_simulator.Prelude.{◌≡◌, refl, ◌∙◌, List, [], ◌∷◌}
use g_simulator.Fsm.{Row, Outcome, refused, moves, outcome, Engine}

pub data OperState : Type 0 where
  down up : OperState

pub data OperTx : Type 0 where
  enable disable : OperTx

pub OperState-discrete : Discrete OperState
OperState-discrete = hlevel

pub OperTx-discrete : Discrete OperTx
OperTx-discrete = hlevel

row : OperTx → List OperState → OperState → Row OperState OperTx
row name src dst = record { name = name; src = src; dst = dst }

pub oper_events : List (Row OperState OperTx)
unfolding row
oper_events = row enable (down ∷ []) up ∷ row disable (up ∷ []) down ∷ []

-- The same table read as a function.
abbrev pub next : OperState → OperTx → Outcome OperState
next down enable = moves up
next up disable = moves down
next _ _ = refused

outcome-next :
    (s : OperState) (tx : OperTx)
    → outcome OperState-discrete OperTx-discrete oper_events s tx ≡ next s tx
unfolding oper_events OperState-discrete OperTx-discrete
outcome-next down enable = refl
outcome-next down _ = refl
outcome-next up enable = refl
outcome-next up _ = refl

module _ (engine : Engine) where
  unfoldable pub oper_event : OperState → OperTx → Outcome OperState
  oper_event s tx = engine.fire OperState-discrete OperTx-discrete oper_events s tx

  pub oper_event-next : (s : OperState) (tx : OperTx) → oper_event s tx ≡ next s tx
  unfolding oper_event
  oper_event-next s tx = engine.fire_lem _ _ oper_events s tx ∙ outcome-next s tx
