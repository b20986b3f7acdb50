-- ===== src/Onu/Flows/Removal.antt =====
-- Adding and removing flows (internal/bbsim/devices/onu.go: handleFlowAdd, handleFlowRemove).
use g_simulator.Prelude.{ℕ, suc, ◌≡◌, ◌≢◌, refl, List, [], ◌∷◌, ◌++◌, ◌==◌, if◌then◌else◌, arith}
use g_simulator.Go.{ok}
use g_simulator.Fsm.{Engine}
use g_simulator.Onu.Machine.{OnuState}
use g_simulator.Onu.State.{Onu}
use g_simulator.Messages.{Flow}
use g_simulator.Onu.Flows.{handle_flow_add, remove_first, when_no_flow_left, handle_flow_remove}

-- How often a flow is in the list.
abbrev pub count : ℕ → List ℕ → ℕ
count id [] = 0
count id (x ∷ xs) = let rest = count id xs in if x == id then suc rest else rest

count-append :
    (id x : ℕ) (xs : List ℕ)
    → count id (xs ++ x ∷ []) ≡ (if x == id then suc (count id xs) else count id xs)
count-append id x [] = refl
count-append id x (y ∷ xs) = ground (arith, count-append id x xs)

count-remove_first_ne :
    (id x : ℕ) (xs : List ℕ) → x ≢ id → count id (remove_first x xs) ≡ count id xs
unfolding remove_first
count-remove_first_ne id x [] h = refl
count-remove_first_ne id x (y ∷ xs) h = ground (arith, count-remove_first_ne id x xs h)

remove_first-append :
    (id : ℕ) (xs : List ℕ) → count id xs ≡ 0 → remove_first id (xs ++ id ∷ []) ≡ xs
unfolding remove_first
remove_first-append id [] h = ground arith
remove_first-append id (y ∷ xs) h = ground (arith, remove_first-append id xs)

id_left :
    (id : ℕ) (xs : List ℕ) (o : Onu)
    → o.internal_state ≢ OnuState.disabled
    → when_no_flow_left xs o ≡ ok o
unfolding when_no_flow_left
id_left id [] o h = ground arith
id_left id (x ∷ xs) o h = refl

-- Adding a flow whose id the ONU does not hold, and removing it again, brings the list of flow ids
-- back, and the removal changes nothing else of the ONU, if the ONU is not in `disabled`.
pub remove-add :
    (engine : Engine) (f : Flow) (o p : Onu)
    → handle_flow_add engine f o ≡ ok p
    → count f.flow_id o.flow_ids ≡ 0
    → o.internal_state ≢ OnuState.disabled
    → handle_flow_remove f.flow_id p ≡ ok (record p { flow_ids = o.flow_ids })
unfolding handle_flow_add handle_flow_remove
remove-add engine f o p h c d = ground (
  arith,
  remove_first-append f.flow_id o.flow_ids c,
  id_left f.flow_id o.flow_ids (record p { flow_ids = o.flow_ids }),
)
