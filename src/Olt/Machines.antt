-- ===== src/Olt/Machines.antt =====
-- The machines of the OLT (internal/bbsim/devices/olt.go, CreateOLT) and of a PON port
-- (internal/bbsim/devices/pon.go, CreatePonPort), called InternalState in both.
use g_simulator.Prelude.{◌≡◌, refl, ◌∙◌, List, [], ◌∷◌}
use g_simulator.Fsm.{Row, Outcome, refused, moves, outcome, Engine}

pub data PonState : Type 0 where
  created enabled disabled : PonState

pub data PonTx : Type 0 where
  enable disable : PonTx

pub PonState-discrete : Discrete PonState
PonState-discrete = hlevel

pub PonTx-discrete : Discrete PonTx
PonTx-discrete = hlevel

pub pon_events : List (Row PonState PonTx)
pon_events =
    record {
      name = PonTx.enable;
      src = PonState.created ∷ PonState.disabled ∷ [];
      dst = PonState.enabled;
    }
    ∷ record { name = PonTx.disable; src = PonState.enabled ∷ []; dst = PonState.disabled }
    ∷ []

-- The same table read as a function.
abbrev pub next_pon : PonState → PonTx → Outcome PonState
next_pon PonState.created PonTx.enable = moves PonState.enabled
next_pon PonState.disabled PonTx.enable = moves PonState.enabled
next_pon PonState.enabled PonTx.disable = moves PonState.disabled
next_pon _ _ = refused

outcome-next_pon :
    (s : PonState) (tx : PonTx)
    → outcome PonState-discrete PonTx-discrete pon_events s tx ≡ next_pon s tx
unfolding pon_events PonState-discrete PonTx-discrete
outcome-next_pon PonState.created PonTx.enable = refl
outcome-next_pon PonState.created _ = refl
outcome-next_pon PonState.enabled PonTx.enable = refl
outcome-next_pon PonState.enabled _ = refl
outcome-next_pon PonState.disabled PonTx.enable = refl
outcome-next_pon PonState.disabled _ = refl

pub data OltState : Type 0 where
  created initialized enabled disabled deleted : OltState

pub data OltTx : Type 0 where
  initialize enable disable delete : OltTx

pub OltState-discrete : Discrete OltState
OltState-discrete = hlevel

pub OltTx-discrete : Discrete OltTx
OltTx-discrete = hlevel

pub olt_events : List (Row OltState OltTx)
olt_events =
    record {
      name = OltTx.initialize;
      src = OltState.created ∷ OltState.deleted ∷ [];
      dst = OltState.initialized;
    }
    ∷ record {
      name = OltTx.enable;
      src = OltState.initialized ∷ OltState.disabled ∷ [];
      dst = OltState.enabled;
    }
    ∷ record { name = OltTx.disable; src = OltState.enabled ∷ []; dst = OltState.disabled }
    ∷ record {
      name = OltTx.delete;
      src = OltState.disabled ∷ OltState.enabled ∷ [];
      dst = OltState.deleted;
    }
    ∷ []

abbrev pub next_olt : OltState → OltTx → Outcome OltState
next_olt OltState.created OltTx.initialize = moves OltState.initialized
next_olt OltState.deleted OltTx.initialize = moves OltState.initialized
next_olt OltState.initialized OltTx.enable = moves OltState.enabled
next_olt OltState.disabled OltTx.enable = moves OltState.enabled
next_olt OltState.enabled OltTx.disable = moves OltState.disabled
next_olt OltState.disabled OltTx.delete = moves OltState.deleted
next_olt OltState.enabled OltTx.delete = moves OltState.deleted
next_olt _ _ = refused

outcome-next_olt :
    (s : OltState) (tx : OltTx)
    → outcome OltState-discrete OltTx-discrete olt_events s tx ≡ next_olt s tx
unfolding olt_events OltState-discrete OltTx-discrete
outcome-next_olt OltState.created OltTx.initialize = refl
outcome-next_olt OltState.created _ = refl
outcome-next_olt OltState.initialized OltTx.initialize = refl
outcome-next_olt OltState.initialized _ = refl
outcome-next_olt OltState.enabled OltTx.initialize = refl
outcome-next_olt OltState.enabled _ = refl
outcome-next_olt OltState.disabled OltTx.initialize = refl
outcome-next_olt OltState.disabled _ = refl
outcome-next_olt OltState.deleted OltTx.initialize = refl
outcome-next_olt OltState.deleted _ = refl

module _ (engine : Engine) where
  unfoldable pub pon_event : PonState → PonTx → Outcome PonState
  pon_event s tx = engine.fire PonState-discrete PonTx-discrete pon_events s tx

  pub pon_event-next : (s : PonState) (tx : PonTx) → pon_event s tx ≡ next_pon s tx
  unfolding pon_event
  pon_event-next s tx = engine.fire_lem _ _ pon_events s tx ∙ outcome-next_pon s tx

  unfoldable pub olt_event : OltState → OltTx → Outcome OltState
  olt_event s tx = engine.fire OltState-discrete OltTx-discrete olt_events s tx

  pub olt_event-next : (s : OltState) (tx : OltTx) → olt_event s tx ≡ next_olt s tx
  unfolding olt_event
  olt_event-next s tx = engine.fire_lem _ _ olt_events s tx ∙ outcome-next_olt s tx
