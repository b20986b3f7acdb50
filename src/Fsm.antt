-- ===== src/Fsm.antt =====
-- The finite state machines of github.com/looplab/fsm, a library that the program only calls: the
-- engine is a parameter, of which `fire_lem` states what the library's documentation says of `Event`.
use g_simulator.Prelude.{
  ◌≡◌, ◌⊎◌, inl, inr, refl, Bool, true, false, List, [], ◌∷◌, Option, none, some, if◌then◌else◌,
}
use mathlib.Core.Logic.{ite}

-- One line of an `fsm.Events` table.
pub record Row (S E : Type 0) : Type 0 where
  pub name : E
  pub src : List S
  pub dst : S

-- What `Event` decides: an error, the `NoTransitionError` of an event that stays, or a new state.
pub data Outcome (S : Type 0) : Type 0 where
  refused : Outcome S
  stays : Outcome S
  moves : S → Outcome S

pub Outcome-cases :
    {S : Type 0} (o : Outcome S) → (o ≡ refused) ⊎ (o ≡ stays) ⊎ ((d : S) × (o ≡ moves d))
Outcome-cases refused = inl refl
Outcome-cases stays = inr (inl refl)
Outcome-cases (moves d) = inr (inr (d, refl))

-- What holds in each case of an outcome.
pub outcome_intro {ℓ κ} :
    {S : Type 0} {A : Type ℓ} (P : A → Type κ) (o : Outcome S) (a b : A) (f : S → A)
    → P a
    → P b
    → ((d : S) → P (f d))
    → P (elim o [ refused ↦ a | stays ↦ b | moves d ↦ f d ])
outcome_intro P refused a b f ha hb hf = ha
outcome_intro P stays a b f ha hb hf = hb
outcome_intro P (moves d) a b f ha hb hf = hf d

-- The error that `Event` returns; `none` is the source's nil.
pub data EventError : Type 0 where
  invalid_event no_transition : EventError

module _ {S E : Type 0} (same_state : Discrete S) (same_event : Discrete E) where
  abbrev pub is_source : S → List S → Bool
  is_source s [] = false
  is_source s (x ∷ xs) = ite (same_state x s) true (is_source s xs)

  -- Of several rows for one event and source the last counts.
  abbrev pub destination : List (Row S E) → S → E → Option S
  destination [] s e = none
  destination (r ∷ rs) s e = elim (destination rs s e) [
    | some d ↦ some d
    | none ↦ if ite (same_event r.name e) (is_source s r.src) false then some r.dst else none
  ]

  abbrev pub outcome : List (Row S E) → S → E → Outcome S
  outcome rows s e = elim (destination rows s e) [
    | none ↦ refused
    | some d ↦ ite (same_state d s) stays (moves d)
  ]

-- The engine: what an event does to a machine with this table in this state.
pub record Engine : Type 1 where
  pub fire : {S E : Type 0} → Discrete S → Discrete E → List (Row S E) → S → E → Outcome S
  pub fire_lem :
      {S E : Type 0} (same_state : Discrete S) (same_event : Discrete E) (rows : List (Row S E))
      (s : S) (e : E)
      → fire same_state same_event rows s e ≡ outcome same_state same_event rows s e

-- The documented behaviour can be met.
abbrev pub table_engine : Engine
table_engine = record {
  fire = λ ds de rows s e. outcome ds de rows s e;
  fire_lem = λ ds de rows s e. refl;
}
