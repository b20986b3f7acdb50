-- ===== src/Olt/Ids.antt =====
-- The GEM ports and alloc ids that the OLT learns from flows (internal/bbsim/devices/olt.go: AllocIDs
-- and GemPortIDs, the store and free functions, the loops of validateFlow). The two maps are of one
-- shape and have one implementation here. The source guards each by a lock.

pub mod Freeing
pub mod Entries
pub mod Usage
pub mod Refines
pub mod Taken
pub mod Exclusive
use g_simulator.Prelude.{
  ℕ, Bool, true, false, ◌||◌, List, [], ◌∷◌, Option, none, some, ◌==◌, if◌then◌else◌,
}
use mathlib.Core.Option
use g_simulator.Prelude.Map
use g_simulator.Prelude.Map.{nat_eq}
use g_simulator.Go.{Result, ok, ◌>>=◌, deref}

-- map[ponPortId]map[OnuId]map[PortNo]map[id]map[FlowId]bool; a missing inner map is nil.
abbrev pub FlowMap : Type 0
FlowMap = List (ℕ × Bool)

abbrev pub IdMap : Type 0
IdMap = List (ℕ × FlowMap)

abbrev pub UniMap : Type 0
UniMap = List (ℕ × IdMap)

abbrev pub OnuMap : Type 0
OnuMap = List (ℕ × UniMap)

abbrev pub Ids : Type 0
Ids = List (ℕ × OnuMap)

-- `m[k]` of a map of maps: nil if there is none.
abbrev pub at : {V : Type 0} → ℕ → List (ℕ × List V) → List V
at k m = elim (Map.lookup k m) [ none ↦ [] | some v ↦ v ]

-- storeAllocId and storeGemPortId: the maps of the UNI and of the id are made when they are missing, a
-- write to the nil map of an unknown ONU panics.
unfoldable pub store_id : ℕ → ℕ → ℕ → ℕ → ℕ → Ids → Result Ids
store_id pon onu port id flow ids = do
  onus ← deref (Map.lookup pon ids)
  unis ← deref (Map.lookup onu onus)
  let uni = at port unis
  let unis' = Map.insert port (Map.insert id (Map.insert flow true (at id uni)) uni) unis
  ok (Map.insert pon (Map.insert onu unis' onus) ids)

-- What ActivateOnu does to each of the maps: `ids[pon][onu] = make(...)`.
unfoldable pub activate_ids : ℕ → ℕ → Ids → Result Ids
activate_ids pon onu ids = do
  onus ← deref (Map.lookup pon ids)
  ok (Map.insert pon (Map.insert onu [] onus) ids)

-- The loop of storeGemPortIdByFlow over the GEM ports of a replicated flow.
unfoldable pub store_ids : ℕ → ℕ → ℕ → List (ℕ × ℕ) → ℕ → Ids → Result Ids
store_ids pon onu port [] flow ids = ok ids
store_ids pon onu port ((_, gem) ∷ gems) flow ids = do
  ids' ← store_id pon onu port gem flow ids
  store_ids pon onu port gems flow ids'

-- An id whose last flow is gone is deleted.
unfoldable pub unless_empty : Option FlowMap → Option FlowMap
unless_empty (some []) = none
unless_empty flows = flows

-- The innermost loop of freeAllocId and freeGemPortId, over the flows of an id at its start; `none`
-- once the id is deleted.
unfoldable pub free_loop : ℕ → FlowMap → Option FlowMap → Option FlowMap
unfolding unless_empty
free_loop flow [] current = current
free_loop flow ((f, _) ∷ rest) current =
    free_loop flow rest
      (unless_empty (if flow == f then Option.map (Map.delete flow) current else current))

unfoldable pub free_flow : ℕ → FlowMap → Option FlowMap
free_flow flow flows = free_loop flow flows (some flows)

-- The loops over UNIs and ONUs.
unfoldable pub free_unis : ℕ → UniMap → UniMap
free_unis flow = Map.update_values λ uni. some (Map.update_values (free_flow flow) uni)

unfoldable pub free_onus : ℕ → OnuMap → OnuMap
free_onus flow = Map.update_values λ unis. some (free_unis flow unis)

-- freeAllocId and freeGemPortId.
unfoldable pub free_id : ℕ → Ids → Ids
free_id flow = Map.update_values λ onus. some (free_onus flow onus)

-- A loop of validateFlow: some other ONU of the PON has an id that `wanted` says the flow carries.
unfoldable pub is_taken : (ℕ → Bool) → ℕ → ℕ → Ids → Bool
is_taken wanted pon onu ids =
    Map.any_entry
      (λ onu_id unis.
        if onu_id == onu
        then false
        else Map.any_entry (λ uni_id uni. Map.any_entry (λ id flows. wanted id) uni) unis)
      (at pon ids)
