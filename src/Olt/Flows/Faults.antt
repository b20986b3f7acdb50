-- ===== src/Olt/Flows/Faults.antt =====
-- A flow for an ONU whose maps of ids were never made (internal/bbsim/devices/olt.go, FlowAdd).
use g_simulator.Prelude.{
  ℕ, ◌≡◌, ◌≢◌, refl, Bool, false, List, [], ◌∷◌, none, some, ◌==◌, ◌||◌, arith, Option-cases, inl,
  inr, if_intro,
}
use g_simulator.Prelude.Map
use g_simulator.Prelude.Map.{nat_eq}
use g_simulator.Go.{Result, blocks, panics, panics-bind, bind-ne-blocks}
use g_simulator.Onu.State.{Onu}
use g_simulator.Onu.Flows.{with_first}
use g_simulator.Olt.Ids.{Ids, store_id, store_ids}
use g_simulator.Olt.Ids.Entries.{unis_of}
use g_simulator.Olt.Ids.Refines.{store_unknown}
use g_simulator.Olt.State.{PonPort, OltFlow, no_intf, OltDevice, get_pon_by_id, get_onu_by_id}
use g_simulator.Olt.Flows.{
  flow_add_at, is_down, validate_flow, with_onu, store_gem_port_id_by_flow, store_alloc_id_by_flow,
  store_flow, flow_add_onu, flow_add_olt,
}

store_id-ne-blocks :
    (pon onu port id flow : ℕ) (ids : Ids) → store_id pon onu port id flow ids ≢ blocks
unfolding store_id
store_id-ne-blocks pon onu port id flow ids = elim (Option-cases (Map.lookup pon ids)) [
  | inl e ↦ rw e (cc)
  | inr (onus, e) ↦ rw e (elim (Option-cases (Map.lookup onu onus)) [
    | inl e' ↦ rw e' (cc)
    | inr (unis, e') ↦ rw e' (cc)
  ])
]

store_ids-ne-blocks :
    (pon onu port : ℕ) (gems : List (ℕ × ℕ)) (flow : ℕ) (ids : Ids)
    → store_ids pon onu port gems flow ids ≢ blocks
unfolding store_ids
store_ids-ne-blocks pon onu port [] flow ids = cc
store_ids-ne-blocks pon onu port ((b, g) ∷ gems) flow ids =
    bind-ne-blocks (store_id pon onu port g flow ids) _ (store_id-ne-blocks pon onu port g flow ids)
      (λ ids'. store_ids-ne-blocks pon onu port gems flow ids')

with_first-ne-blocks :
    {P : Type 0} (test : P → Bool) (f : P → Result P) (ps : List P)
    → ((p : P) → f p ≢ blocks)
    → with_first test f ps ≢ blocks
unfolding with_first
with_first-ne-blocks test f [] n = cc
with_first-ne-blocks test f (p ∷ ps) n =
    if_intro (λ r. r ≢ blocks) (test p) (bind-ne-blocks (f p) _ (n p) (λ q. cc))
      (bind-ne-blocks (with_first test f ps) _ (with_first-ne-blocks test f ps n) (λ qs. cc))

module _ (f : OltFlow) (o : OltDevice) where
  store_flow-panics : unis_of f.access_intf_id f.onu_id o.alloc_ids ≡ none → store_flow f o ≡ panics
  unfolding store_flow store_gem_port_id_by_flow store_alloc_id_by_flow
  store_flow-panics u =
      panics-bind (store_gem_port_id_by_flow f o.gem_port_ids) _
        (if_intro (λ r. r ≢ blocks) f.flow.replicate_flow
          (store_ids-ne-blocks f.access_intf_id f.onu_id f.flow.port_no f.flow.pbit_to_gemport
            f.flow.flow_id o.gem_port_ids)
          (store_id-ne-blocks f.access_intf_id f.onu_id f.flow.port_no f.flow.gemport_id
            f.flow.flow_id o.gem_port_ids))
        λ gems.
          rw
            (store_unknown f.access_intf_id f.onu_id f.flow.port_no f.alloc_id f.flow.flow_id
              o.alloc_ids u)
            refl

module _ (f : OltFlow) (o : OltDevice) where
  flow_add_onu-panics :
      validate_flow f o ≡ none
      → unis_of f.access_intf_id f.onu_id o.alloc_ids ≡ none
      → flow_add_onu f o ≡ panics
  unfolding flow_add_onu with_onu validate_flow
  flow_add_onu-panics v u =
      panics-bind (with_first _ _ o.pons) _
        (with_first-ne-blocks _ _ o.pons (λ p.
          bind-ne-blocks (with_first _ _ p.onus) _ (with_first-ne-blocks _ _ p.onus (λ x. cc))
            (λ onus. cc)))
        (λ pons. rw v (store_flow-panics f (record o { pons = pons }) u))

at_onu :
    (f : OltFlow) (o : OltDevice) (pon : PonPort) (onu : Onu)
    → get_onu_by_id f.onu_id pon ≡ some onu
    → is_down onu.internal_state ≡ false
    → flow_add_onu f o ≡ panics
    → flow_add_at f o pon ≡ panics
unfolding flow_add_at
at_onu f o pon onu ho d h = ground arith

module _ (f : OltFlow) (o : OltDevice) where
  -- A valid flow for an ONU that is there and is not down panics, instead of being refused, when the ONU
  -- was never activated: the error is logged, and the alloc id is written to a nil map all the same.
  pub flow_add_olt-panics :
      (pon : PonPort) (onu : Onu)
      → f.access_intf_id ≢ no_intf
      → f.is_multicast ≡ false
      → get_pon_by_id f.access_intf_id o ≡ some pon
      → get_onu_by_id f.onu_id pon ≡ some onu
      → is_down onu.internal_state ≡ false
      → validate_flow f o ≡ none
      → unis_of f.access_intf_id f.onu_id o.alloc_ids ≡ none
      → flow_add_olt f o ≡ panics
  unfolding flow_add_olt get_pon_by_id validate_flow
  flow_add_olt-panics pon onu a m hp ho d v u =
      let e : ((f.access_intf_id == no_intf) || f.is_multicast) ≡ false = ground arith in
      rw e (rw hp (at_onu f _ pon onu ho d (flow_add_onu-panics f _ v u)))
