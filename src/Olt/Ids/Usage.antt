-- ===== src/Olt/Ids/Usage.antt =====
-- What the maps of ids promise: a set of uses, that is, which flow uses which id at which port of which
-- ONU (internal/bbsim/devices/olt.go: storeAllocId, storeGemPortId, freeAllocId, freeGemPortId, and what
-- ActivateOnu does to the maps).
use g_simulator.Prelude.{
  ℕ, ◌≡◌, Bool, ◌&&◌, ◌||◌, not, List, [], ◌∷◌, Option, none, some, ◌==◌, if◌then◌else◌,
}
use g_simulator.Prelude.Map
use g_simulator.Prelude.Map.{nat_eq, lookup-insert, lookup-update_values}
use g_simulator.Go.{Result, ok, panics, ◌>>=◌}
use g_simulator.Olt.Ids.{Ids, store_id, activate_ids, free_id}
use g_simulator.Olt.Ids.Freeing.{flow_of}
use g_simulator.Olt.Ids.Entries.{is_some, unis_of, flows_of, HasFlow}

-- The specification.
pub record Usage : Type 0 where
  pub has_pon : ℕ → Bool
  pub knows : ℕ → ℕ → Bool
  pub uses : ℕ → ℕ → ℕ → ℕ → ℕ → Bool

pub data Op : Type 0 where
  store : ℕ → ℕ → ℕ → ℕ → ℕ → Op
  free : ℕ → Op
  activate : ℕ → ℕ → Op

-- The flows of an ONU that is activated are forgotten; an ONU that is not known cannot store.
unfoldable pub specified : Op → Usage → Option Usage
specified (store pon onu port id flow) s =
    if s.knows pon onu
    then some (record s {
      uses = λ p n u g k.
          (((pon == p) && (onu == n)) && (((port == u) && (id == g)) && (flow == k)))
          || s.uses p n u g k;
    })
    else none
specified (free flow) s =
    some (record s { uses = λ p n u g k. not (flow == k) && s.uses p n u g k })
specified (activate pon onu) s =
    if s.has_pon pon
    then some (record s {
      knows = λ p n. ((pon == p) && (onu == n)) || s.knows p n;
      uses = λ p n u g k. not ((pon == p) && (onu == n)) && s.uses p n u g k;
    })
    else none

unfoldable pub performed : Op → Ids → Result Ids
performed (store pon onu port id flow) ids = store_id pon onu port id flow ids
performed (free flow) ids = ok (free_id flow ids)
performed (activate pon onu) ids = activate_ids pon onu ids

unfoldable pub specified_all : List Op → Usage → Option Usage
specified_all [] s = some s
specified_all (op ∷ ops) s = elim (specified op s) [ none ↦ none | some s' ↦ specified_all ops s' ]

unfoldable pub performed_all : List Op → Ids → Result Ids
performed_all [] ids = ok ids
performed_all (op ∷ ops) ids = do ids' ← performed op ids; performed_all ops ids'

-- The maps stand for a set of uses, and hold no id without a flow.
pub record Refines (ids : Ids) (s : Usage) : Type 0 where
  pub has_pon : (p : ℕ) → is_some (Map.lookup p ids) ≡ s.has_pon p
  pub knows : (p n : ℕ) → is_some (unis_of p n ids) ≡ s.knows p n
  pub uses : (p n u g k : ℕ) → is_some (flow_of k (flows_of p n u g ids)) ≡ s.uses p n u g k
  pub tidy : (p n u g : ℕ) → HasFlow (flows_of p n u g ids)

abbrev pub Agrees : Result Ids → Option Usage → Type 0
Agrees (ok ids) (some s) = Refines ids s
Agrees panics none = Unit
Agrees _ _ = ⊥
