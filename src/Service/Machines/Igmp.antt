-- ===== src/Service/Machines/Igmp.antt =====
-- `IGMPState` of a service (internal/bbsim/devices/services.go, lines 275-282).
use g_simulator.Prelude.{◌≡◌, refl, ◌∙◌, List, [], ◌∷◌}
use g_simulator.Fsm.{Row, Outcome, refused, stays, moves, outcome, Engine}

pub data IgmpState : Type 0 where
  created igmp_join_started igmp_join_error igmp_left : IgmpState

pub data IgmpTx : Type 0 where
  igmp_join_start igmp_join_startv3 fail_igmp_join igmp_leave : IgmpTx

pub IgmpState-discrete : Discrete IgmpState
IgmpState-discrete = hlevel

pub IgmpTx-discrete : Discrete IgmpTx
IgmpTx-discrete = hlevel

row : IgmpTx → List IgmpState → IgmpState → Row IgmpState IgmpTx
row name src dst = record { name = name; src = src; dst = dst }

pub igmp_events : List (Row IgmpState IgmpTx)
unfolding row
igmp_events =
    row igmp_join_start (created ∷ igmp_left ∷ igmp_join_error ∷ igmp_join_started ∷ [])
      igmp_join_started
    ∷ row igmp_join_startv3 (igmp_left ∷ igmp_join_error ∷ igmp_join_started ∷ []) igmp_join_started
    ∷ row fail_igmp_join (igmp_join_started ∷ []) igmp_join_error
    ∷ row igmp_leave (igmp_join_started ∷ []) igmp_left
    ∷ []

-- The same table read as a function.
abbrev pub next : IgmpState → IgmpTx → Outcome IgmpState
next created igmp_join_start = moves igmp_join_started
next igmp_left igmp_join_start = moves igmp_join_started
next igmp_join_error igmp_join_start = moves igmp_join_started
next igmp_join_started igmp_join_start = stays
next igmp_left igmp_join_startv3 = moves igmp_join_started
next igmp_join_error igmp_join_startv3 = moves igmp_join_started
next igmp_join_started igmp_join_startv3 = stays
next igmp_join_started fail_igmp_join = moves igmp_join_error
next igmp_join_started igmp_leave = moves igmp_left
next _ _ = refused

outcome-next :
    (s : IgmpState) (tx : IgmpTx)
    → outcome IgmpState-discrete IgmpTx-discrete igmp_events s tx ≡ next s tx
unfolding igmp_events IgmpState-discrete IgmpTx-discrete
outcome-next created igmp_join_start = refl
outcome-next created _ = refl
outcome-next igmp_join_started igmp_join_start = refl
outcome-next igmp_join_started _ = refl
outcome-next igmp_join_error igmp_join_start = refl
outcome-next igmp_join_error _ = refl
outcome-next igmp_left igmp_join_start = refl
outcome-next igmp_left _ = refl

module _ (engine : Engine) where
  unfoldable pub igmp_event : IgmpState → IgmpTx → Outcome IgmpState
  igmp_event s tx = engine.fire IgmpState-discrete IgmpTx-discrete igmp_events s tx

  pub igmp_event-next : (s : IgmpState) (tx : IgmpTx) → igmp_event s tx ≡ next s tx
  unfolding igmp_event
  igmp_event-next s tx = engine.fire_lem _ _ igmp_events s tx ∙ outcome-next s tx
