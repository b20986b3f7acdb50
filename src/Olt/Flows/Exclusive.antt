-- ===== src/Olt/Flows/Exclusive.antt =====
-- Adding and removing flows keeps GEM ports and alloc ids exclusive to one ONU of a PON
-- (internal/bbsim/devices/olt.go: FlowAdd, FlowRemove).
use g_simulator.Prelude.{
  ℕ, ◌≡◌, Option-cases, inl, inr, true, false, ◌||◌, List, [], ◌∷◌, Option, none, some, ◌==◌, All,
  arith,
}
use g_simulator.Go.{Ensures-option, ok, deref, Ensures, Ensures-bind, Ensures-any, Ensures-if}
use g_simulator.Prelude.Map
use g_simulator.Prelude.Map.{nat_eq}
use g_simulator.Onu.Flows.{with_first}
use g_simulator.Olt.Ids.{Ids, free_id}
use g_simulator.Olt.Ids.Exclusive.{
  IsExclusive, CanStore, store_id-CanStore, store_ids-CanStore, free_id-IsExclusive,
}
use g_simulator.Olt.State.{
  get_onu_by_flow_id, OltFlow, no_intf, OltDevice, get_pon_by_id, get_onu_by_id,
}
use g_simulator.Olt.Flows.{
  FlowError, carries, carries_gem, validate_flow, store_gem_port_id_by_flow, store_alloc_id_by_flow,
  with_onu, is_down, store_flow, flow_add_onu, flow_add_olt, tell_removed, remove_stored,
  flow_remove_olt,
}
use g_simulator.Olt.Flows.Validity.{GemsNotElsewhere, AllocNotElsewhere, validate_flow_lem}

pub record HasExclusiveIds (o : OltDevice) : Type 0 where
  pub gems : IsExclusive o.gem_port_ids
  pub allocs : IsExclusive o.alloc_ids

-- The gem ports of a replicated flow are all carried by it.
carries_more :
    (b g : ℕ) (q : ℕ × ℕ) (all : List (ℕ × ℕ))
    → carries q.1 all ≡ true
    → carries q.1 ((b, g) ∷ all) ≡ true
unfolding carries
carries_more b g q all h = ground arith

All-map :
    {A : Type 0} {P Q : A → Type 0} (xs : List A) → ((a : A) → P a → Q a) → All P xs → All Q xs
All-map [] k h = tt
All-map (x ∷ xs) k h = (k x h.0, All-map xs k h.1)

carries_all : (gems : List (ℕ × ℕ)) → All (λ q. carries q.1 gems ≡ true) gems
unfolding carries
carries_all [] = tt
carries_all ((b, g) ∷ gems) =
    (ground arith, All-map gems (λ q h. carries_more b g q gems h) (carries_all gems))

module _ (f : OltFlow) where
  abbrev GemWanted : Ids → Type 0
  GemWanted = CanStore (carries_gem f.flow) f.access_intf_id f.onu_id

  replicated :
      (q : ℕ × ℕ)
      → f.flow.replicate_flow ≡ true
      → carries q.1 f.flow.pbit_to_gemport ≡ true
      → carries_gem f.flow q.1 ≡ true
  unfolding carries_gem
  replicated q r h = ground arith

  plain : f.flow.replicate_flow ≡ false → carries_gem f.flow f.flow.gemport_id ≡ true
  unfolding carries_gem
  plain r = ground arith

  store_gems : (ids : Ids) → GemWanted ids → Ensures GemWanted (store_gem_port_id_by_flow f ids)
  unfolding store_gem_port_id_by_flow
  store_gems ids c =
      Ensures-if GemWanted f.flow.replicate_flow _ _
        (λ r.
          store_ids-CanStore (carries_gem f.flow) f.access_intf_id f.onu_id f.flow.port_no
            f.flow.flow_id f.flow.pbit_to_gemport ids
            (All-map f.flow.pbit_to_gemport (λ q h. replicated q r h)
              (carries_all f.flow.pbit_to_gemport))
            c)
        (λ r.
          store_id-CanStore (carries_gem f.flow) f.access_intf_id f.onu_id f.flow.port_no
            f.flow.flow_id f.flow.gemport_id ids (plain r) c)

  abbrev AllocWanted : Ids → Type 0
  AllocWanted = CanStore (λ a. a == f.alloc_id) f.access_intf_id f.onu_id

  store_alloc : (ids : Ids) → AllocWanted ids → Ensures AllocWanted (store_alloc_id_by_flow f ids)
  unfolding store_alloc_id_by_flow
  store_alloc ids c =
      store_id-CanStore (λ a. a == f.alloc_id) f.access_intf_id f.onu_id f.flow.port_no
        f.flow.flow_id f.alloc_id ids (ground arith) c

  abbrev pub Keeps : Option FlowError × OltDevice → Type 0
  Keeps r = HasExclusiveIds r.1

  store_flow-HasExclusiveIds :
      (o : OltDevice)
      → HasExclusiveIds o
      → GemsNotElsewhere f o × AllocNotElsewhere f o
      → Ensures Keeps (store_flow f o)
  unfolding store_flow
  store_flow-HasExclusiveIds o x (g, a) =
      Ensures-bind GemWanted Keeps (store_gem_port_id_by_flow f o.gem_port_ids) _
        (store_gems o.gem_port_ids (x.gems, g))
        λ gems cg.
          Ensures-bind AllocWanted Keeps (store_alloc_id_by_flow f o.alloc_ids) _
            (store_alloc o.alloc_ids (x.allocs, a))
            λ allocs ca.
              Ensures-bind (λ _. Unit {0}) Keeps (with_onu f.access_intf_id f.onu_id _ o.pons) _
                (Ensures-any _) λ pons _. record { gems = cg.0; allocs = ca.0 }

  flow_add_onu-HasExclusiveIds :
      (o : OltDevice) → HasExclusiveIds o → Ensures Keeps (flow_add_onu f o)
  unfolding flow_add_onu
  flow_add_onu-HasExclusiveIds o x =
      Ensures-bind (λ _. Unit {0}) Keeps (with_onu f.access_intf_id f.onu_id _ o.pons) _
        (Ensures-any _)
        λ pons _. validated (record o { pons = pons }) (record { gems = x.gems; allocs = x.allocs })
    where
      validated :
          (o' : OltDevice)
          → HasExclusiveIds o'
          → Ensures Keeps
              (elim (validate_flow f o') [ some e ↦ ok (some e, o') | none ↦ store_flow f o' ])
      validated o' x' = elim (Option-cases (validate_flow f o')) [
        | inl v ↦ rw v (store_flow-HasExclusiveIds o' x' ((validate_flow_lem f o').0 v))
        | inr (e, v) ↦ rw v x'
      ]

  pub flow_add-HasExclusiveIds :
      (o : OltDevice) → HasExclusiveIds o → Ensures Keeps (flow_add_olt f o)
  unfolding flow_add_olt
  flow_add-HasExclusiveIds o x =
      Ensures-if Keeps ((f.access_intf_id == no_intf) || f.is_multicast) _ _
        (λ _. record { gems = x.gems; allocs = x.allocs })
        λ _.
          Ensures-bind (λ _. Unit {0}) Keeps (deref (get_pon_by_id f.access_intf_id _)) _
            (Ensures-any _)
            λ pon _.
              Ensures-option Keeps (get_onu_by_id f.onu_id pon) _ _
                (record { gems = x.gems; allocs = x.allocs })
                λ onu.
                  Ensures-if Keeps (is_down onu.internal_state) _ _
                    (λ _. record { gems = x.gems; allocs = x.allocs })
                    (λ _.
                      flow_add_onu-HasExclusiveIds _ (record { gems = x.gems; allocs = x.allocs }))

  tell_removed-HasExclusiveIds :
      (o : OltDevice) → HasExclusiveIds o → Ensures Keeps (tell_removed f o)
  unfolding tell_removed
  tell_removed-HasExclusiveIds o x =
      Ensures-if Keeps ((f.access_intf_id == no_intf) || f.is_multicast) _ _ (λ _. x)
        λ _. Ensures-option Keeps (get_onu_by_flow_id f.flow.flow_id o.pons) _ _ x λ u.
          Ensures-bind (λ _. Unit {0}) Keeps (with_first _ _ o.pons) _ (Ensures-any _)
            λ pons _. record { gems = x.gems; allocs = x.allocs }

  remove_stored-HasExclusiveIds :
      (stored : OltFlow) (o : OltDevice)
      → HasExclusiveIds o
      → Ensures Keeps (remove_stored f stored o)
  unfolding remove_stored
  remove_stored-HasExclusiveIds stored o x =
      Ensures-if Keeps (stored.access_intf_id == no_intf) _ _
        (λ _. tell_removed-HasExclusiveIds _ (record { gems = x.gems; allocs = x.allocs }))
        λ _. Ensures-option Keeps (get_pon_by_id stored.access_intf_id o) _ _ x λ pon.
          Ensures-option Keeps (get_onu_by_id stored.onu_id pon) _ _ x λ u.
            Ensures-bind (λ _. Unit {0}) Keeps
              (with_onu stored.access_intf_id stored.onu_id _ o.pons) _ (Ensures-any _)
              λ pons _. tell_removed-HasExclusiveIds _ (record { gems = x.gems; allocs = x.allocs })

  pub flow_remove-HasExclusiveIds :
      (o : OltDevice) → HasExclusiveIds o → Ensures Keeps (flow_remove_olt f o)
  unfolding flow_remove_olt
  flow_remove-HasExclusiveIds o x =
      Ensures-if Keeps o.enable_perf _ _ (λ _. tell_removed-HasExclusiveIds _ x')
        λ _.
          Ensures-option Keeps (Map.lookup f.flow.flow_id o.flows) _ _ x'
            (λ stored. remove_stored-HasExclusiveIds stored _ x')
    where
      x' : HasExclusiveIds (record o {
        gem_port_ids = free_id f.flow.flow_id o.gem_port_ids;
        alloc_ids = free_id f.flow.flow_id o.alloc_ids;
      })
      x' = record {
        gems = free_id-IsExclusive f.flow.flow_id o.gem_port_ids x.gems;
        allocs = free_id-IsExclusive f.flow.flow_id o.alloc_ids x.allocs;
      }
