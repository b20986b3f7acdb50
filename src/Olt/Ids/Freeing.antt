-- ===== src/Olt/Ids/Freeing.antt =====
-- What freeing the ids of a flow does to the flows of one id (internal/bbsim/devices/olt.go,
-- freeAllocId and freeGemPortId).
use g_simulator.Prelude.{
  ℕ, ◌≡◌, ◌≢◌, refl, Bool, [], ◌∷◌, Option, none, some, ◌==◌, if◌then◌else◌, arith, Bool-cases,
  Option-cases, inl, inr,
}
use mathlib.Core.Option
use g_simulator.Prelude.Map
use g_simulator.Prelude.Map.{nat_eq, lookup-delete}
use g_simulator.Olt.Ids.{FlowMap, unless_empty, free_loop, free_flow}

-- Whether a flow is among those of an id.
abbrev pub flow_of : ℕ → Option FlowMap → Option Bool
flow_of k none = none
flow_of k (some flows) = Map.lookup k flows

flow_of-unless_empty : (k : ℕ) (o : Option FlowMap) → flow_of k (unless_empty o) ≡ flow_of k o
unfolding unless_empty Map.lookup
flow_of-unless_empty k none = refl
flow_of-unless_empty k (some []) = refl
flow_of-unless_empty k (some (x ∷ xs)) = refl

flow_of-delete :
    (flow k : ℕ) (o : Option FlowMap)
    → flow_of k (Option.map (Map.delete flow) o) ≡ (if flow == k then none else flow_of k o)
flow_of-delete flow k none = ground arith
flow_of-delete flow k (some flows) = lookup-delete flow k flows

-- One round of the loop.
abbrev round : ℕ → ℕ → Option FlowMap → Option FlowMap
round flow f o = unless_empty (if flow == f then Option.map (Map.delete flow) o else o)

flow_of-round :
    (flow f k : ℕ) (o : Option FlowMap)
    → flow_of k (round flow f o)
      ≡ (if flow == f then if flow == k then none else flow_of k o else flow_of k o)
flow_of-round flow f k o = elim (Bool-cases (flow == f)) [
  | inl e ↦
      rw e (rw (flow_of-unless_empty k (Option.map (Map.delete flow) o)) (flow_of-delete flow k o))
  | inr e ↦ rw e (flow_of-unless_empty k o)
]

-- Other flows stay.
flow_of-free_loop :
    (flow k : ℕ) (keys : FlowMap) (o : Option FlowMap)
    → flow ≢ k
    → flow_of k (free_loop flow keys o) ≡ flow_of k o
unfolding free_loop
flow_of-free_loop flow k [] o ne = refl
flow_of-free_loop flow k ((f, v) ∷ keys) o ne =
    ground (arith, flow_of-free_loop flow k keys (round flow f o), flow_of-round flow f k o)

-- The flow does not come back, and goes when the loop reaches it.
gone-free_loop :
    (flow : ℕ) (keys : FlowMap) (o : Option FlowMap)
    → flow_of flow o ≡ none
    → flow_of flow (free_loop flow keys o) ≡ none
unfolding free_loop
gone-free_loop flow [] o h = h
gone-free_loop flow ((f, v) ∷ keys) o h =
    ground (arith, gone-free_loop flow keys (round flow f o), flow_of-round flow f flow o)

reached-free_loop :
    (flow : ℕ) (b : Bool) (keys : FlowMap) (o : Option FlowMap)
    → Map.lookup flow keys ≡ some b
    → flow_of flow (free_loop flow keys o) ≡ none
unfolding free_loop Map.lookup
reached-free_loop flow b [] o h = cc
reached-free_loop flow b ((f, v) ∷ keys) o h = elim (Bool-cases (flow == f)) [
  | inl e ↦ ground (arith, gone-free_loop flow keys (round flow f o), flow_of-round flow f flow o)
  | inr e ↦ ground (arith, reached-free_loop flow b keys (round flow f o))
]

freed : (flow : ℕ) (flows : FlowMap) → flow_of flow (free_flow flow flows) ≡ none
unfolding free_flow
freed flow flows = elim (Option-cases (Map.lookup flow flows)) [
  | inl missing ↦ gone-free_loop flow flows (some flows) missing
  | inr (b, held) ↦ reached-free_loop flow b flows (some flows) held
]

kept :
    (flow k : ℕ) (flows : FlowMap)
    → flow ≢ k
    → flow_of k (free_flow flow flows) ≡ Map.lookup k flows
unfolding free_flow
kept flow k flows ne = flow_of-free_loop flow k flows (some flows) ne

-- Freeing removes the flow from those of an id, and no other.
pub flow_of-free_flow :
    (flow k : ℕ) (flows : FlowMap)
    → flow_of k (free_flow flow flows) ≡ (if flow == k then none else Map.lookup k flows)
flow_of-free_flow flow k flows = ground (arith, freed flow flows, kept flow k flows)

-- An id that is left has a flow.
unless_empty-ne : (o : Option FlowMap) → unless_empty o ≢ some []
unfolding unless_empty
unless_empty-ne none = cc
unless_empty-ne (some []) = cc
unless_empty-ne (some (x ∷ xs)) = cc

free_loop-ne :
    (flow : ℕ) (keys : FlowMap) (o : Option FlowMap) → o ≢ some [] → free_loop flow keys o ≢ some []
unfolding free_loop
free_loop-ne flow [] o h = h
free_loop-ne flow ((f, v) ∷ keys) o h = free_loop-ne flow keys (round flow f o) (unless_empty-ne _)

pub free_flow-ne : (flow : ℕ) (flows : FlowMap) → flows ≢ [] → free_flow flow flows ≢ some []
unfolding free_flow
free_flow-ne flow flows h = free_loop-ne flow flows (some flows) (λ e. ground arith)
