-- ===== src/Olt/Ids/Entries.antt =====
-- The entries of the maps of ids after storing and freeing (internal/bbsim/devices/olt.go,
-- storeAllocId, storeGemPortId, freeAllocId, freeGemPortId).
use g_simulator.Prelude.{
  false, Bool, ℕ, ◌≡◌, ◌≢◌, refl, ap, sym, subst, ◌∙◌, true, ◌&&◌, ◌||◌, List, [], Option, none,
  some, ◌==◌, if◌then◌else◌, arith,
}
use mathlib.Core.Option
use g_simulator.Prelude.Map
use g_simulator.Prelude.Map.{nat_eq, lookup-insert, insert-ne, lookup-update_values}
use g_simulator.Olt.Ids.{FlowMap, UniMap, OnuMap, Ids, at, free_flow, free_unis, free_onus, free_id}
use g_simulator.Olt.Ids.Freeing.{flow_of, flow_of-free_flow, free_flow-ne}

abbrev pub is_some : {A : Type 0} → Option A → Bool
is_some none = false
is_some (some _) = true

abbrev pub then_lookup : {V : Type 0} → ℕ → Option (List (ℕ × V)) → Option V
then_lookup k none = none
then_lookup k (some m) = Map.lookup k m

-- The map of an ONU, if the ONU is known, and the flows of an id.
abbrev pub unis_of : ℕ → ℕ → Ids → Option UniMap
unis_of pon onu ids = then_lookup onu (Map.lookup pon ids)

abbrev pub flows_in : ℕ → ℕ → Option UniMap → Option FlowMap
flows_in port id unis = then_lookup id (then_lookup port unis)

abbrev pub flows_of : ℕ → ℕ → ℕ → ℕ → Ids → Option FlowMap
flows_of pon onu port id ids = flows_in port id (unis_of pon onu ids)

-- What storing does to the map of an ONU.
abbrev pub stored : ℕ → ℕ → ℕ → UniMap → UniMap
stored port id flow unis =
    Map.insert port (Map.insert id (Map.insert flow true (at id (at port unis))) (at port unis))
      unis

-- A write of the map of an ONU of a PON that is there.
pub unis-write :
    (pon onu : ℕ) (unis : UniMap) (ids : Ids) (onus : OnuMap)
    → Map.lookup pon ids ≡ some onus
    → (p n : ℕ)
    → unis_of p n (Map.insert pon (Map.insert onu unis onus) ids)
      ≡ (if (pon == p) && (onu == n) then some unis else unis_of p n ids)
unis-write pon onu unis ids onus hp p n =
    ground
      (arith, lookup-insert pon p (Map.insert onu unis onus) ids, lookup-insert onu n unis onus)

module _ {V : Type 0} where
  pub lookup-nil_or :
      (j : ℕ) (o : Option (List (ℕ × V)))
      → Map.lookup j (elim o [ none ↦ [] | some m ↦ m ]) ≡ then_lookup j o
  unfolding Map.lookup
  lookup-nil_or j none = refl
  lookup-nil_or j (some m) = refl

  -- A write to an inner map, which is made if it is missing.
  lookup-insert-at :
      (k j : ℕ) (v : V) (m : List (ℕ × List (ℕ × V))) (k' j' : ℕ)
      → then_lookup j' (Map.lookup k' (Map.insert k (Map.insert j v (at k m)) m))
        ≡ (if (k == k') && (j == j') then some v else then_lookup j' (Map.lookup k' m))
  lookup-insert-at k j v m k' j' = ground (
    arith,
    lookup-insert k k' (Map.insert j v (at k m)) m,
    lookup-insert j j' v (at k m),
    lookup-nil_or j' (Map.lookup k m),
  )

-- Storing adds one flow to one id.
pub flow-stored :
    (port id flow : ℕ) (unis : UniMap) (u g k : ℕ)
    → flow_of k (flows_in u g (some (stored port id flow unis))) ≡ (
        if ((port == u) && (id == g)) && (flow == k)
        then some true
        else flow_of k (flows_in u g (some unis)))
flow-stored port id flow unis u g k = ground (
  arith,
  lookup-insert-at port id (Map.insert flow true (at id (at port unis))) unis u g,
  lookup-insert flow k true (at id (at port unis)),
  lookup-nil_or k (Map.lookup id (at port unis)),
  lookup-nil_or id (Map.lookup port unis),
)

-- Storing puts one id into use.
pub has-stored :
    (port id flow : ℕ) (unis : UniMap) (u g : ℕ)
    → is_some (flows_in u g (some (stored port id flow unis)))
      ≡ (((port == u) && (id == g)) || is_some (flows_in u g (some unis)))
has-stored port id flow unis u g =
    ground (arith, lookup-insert-at port id (Map.insert flow true (at id (at port unis))) unis u g)

pub no_flows : (u g : ℕ) → flows_in u g (some []) ≡ none
unfolding Map.lookup
no_flows u g = refl

-- An id that is left has a flow.
abbrev pub HasFlow : Option FlowMap → Type 0
HasFlow o = o ≢ some []

pub stored-HasFlow :
    (port id flow : ℕ) (unis : UniMap) (u g : ℕ)
    → HasFlow (flows_in u g (some unis))
    → HasFlow (flows_in u g (some (stored port id flow unis)))
stored-HasFlow port id flow unis u g h = ground (
  arith,
  lookup-insert-at port id (Map.insert flow true (at id (at port unis))) unis u g,
  insert-ne flow true (at id (at port unis)),
)

-- Updating inner maps updates their entries.
then_lookup-map :
    {V : Type 0} (f : V → Option V) (k : ℕ) (o : Option (List (ℕ × V)))
    → then_lookup k (Option.map (Map.update_values f) o)
      ≡ (elim (then_lookup k o) [ none ↦ none | some v ↦ f v ])
then_lookup-map f k none = refl
then_lookup-map f k (some m) = lookup-update_values f k m

pub map-some :
    {V : Type 0} (f : V → V) (o : Option V)
    → (elim o [ none ↦ none | some v ↦ some (f v) ]) ≡ Option.map f o
map-some f none = refl
map-some f (some v) = refl

module _ (flow : ℕ) where
  -- Freeing keeps the known ONUs.
  pub unis-free_id :
      (pon onu : ℕ) (ids : Ids)
      → unis_of pon onu (free_id flow ids) ≡ Option.map (free_unis flow) (unis_of pon onu ids)
  unfolding free_id free_onus
  unis-free_id pon onu ids =
      ap (then_lookup onu) (
        lookup-update_values (λ onus. some (free_onus flow onus)) pon ids
        ∙ map-some (free_onus flow) (Map.lookup pon ids))
      ∙ then_lookup-map (λ unis. some (free_unis flow unis)) onu (Map.lookup pon ids)
      ∙ map-some (free_unis flow) (unis_of pon onu ids)

  -- Freeing takes the flow from every id, and an id without flows is gone.
  pub flows-free_unis :
      (port id : ℕ) (unis : UniMap)
      → flows_in port id (some (free_unis flow unis))
        ≡ (elim (flows_in port id (some unis)) [ none ↦ none | some m ↦ free_flow flow m ])
  unfolding free_unis
  flows-free_unis port id unis =
      ap (then_lookup id) (
        lookup-update_values (λ uni. some (Map.update_values (free_flow flow) uni)) port unis
        ∙ map-some (Map.update_values (free_flow flow)) (Map.lookup port unis))
      ∙ then_lookup-map (free_flow flow) id (Map.lookup port unis)

  after :
      (k : ℕ) (o : Option FlowMap)
      → flow_of k (elim o [ none ↦ none | some m ↦ free_flow flow m ])
        ≡ (if flow == k then none else flow_of k o)
  after k none = ground arith
  after k (some m) = flow_of-free_flow flow k m

  after-HasFlow :
      (o : Option FlowMap)
      → HasFlow o
      → HasFlow (elim o [ none ↦ none | some m ↦ free_flow flow m ])
  after-HasFlow none h = h
  after-HasFlow (some m) h = free_flow-ne flow m (λ e. h (ap some e))

  pub flow-free_unis :
      (port id k : ℕ) (o : Option UniMap)
      → flow_of k (flows_in port id (Option.map (free_unis flow) o))
        ≡ (if flow == k then none else flow_of k (flows_in port id o))
  flow-free_unis port id k none = ground arith
  flow-free_unis port id k (some unis) =
      ap (flow_of k) (flows-free_unis port id unis) ∙ after k (flows_in port id (some unis))

  pub free_unis-HasFlow :
      (port id : ℕ) (o : Option UniMap)
      → HasFlow (flows_in port id o)
      → HasFlow (flows_in port id (Option.map (free_unis flow) o))
  free_unis-HasFlow port id none h = h
  free_unis-HasFlow port id (some unis) h =
      subst HasFlow (sym (flows-free_unis port id unis))
        (after-HasFlow (flows_in port id (some unis)) h)
