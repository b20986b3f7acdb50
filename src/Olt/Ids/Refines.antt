-- ===== src/Olt/Ids/Refines.antt =====
-- The nested maps of ids implement the set of uses of Usage
-- (internal/bbsim/devices/olt.go: storeAllocId, storeGemPortId, freeAllocId, freeGemPortId, and what
-- ActivateOnu does to the maps).
use g_simulator.Prelude.{
  ℕ, ◌≡◌, refl, ap, sym, subst, ◌∙◌, true, ◌&&◌, ◌⊎◌, List, [], ◌∷◌, Option, none, some, ◌==◌,
  arith, if_intro, Option-cases, inl, inr,
}
use mathlib.Core.Option
use g_simulator.Prelude.Map
use g_simulator.Prelude.Map.{nat_eq, lookup-insert, lookup-update_values}
use g_simulator.Go.{Result, ok, blocks, panics, ◌>>=◌}
use g_simulator.Olt.Ids.{UniMap, OnuMap, Ids, store_id, activate_ids, free_unis, free_onus, free_id}
use g_simulator.Olt.Ids.Usage.{
  Usage, Op, store, free, activate, specified, performed, specified_all, performed_all, Refines,
  Agrees,
}
use g_simulator.Olt.Ids.Freeing.{flow_of}
use g_simulator.Olt.Ids.Entries.{
  unis_of, flows_in, stored, unis-write, flow-stored, HasFlow, stored-HasFlow, is_some, no_flows,
  map-some, unis-free_id, flow-free_unis, free_unis-HasFlow,
}

pon-write :
    (pon : ℕ) (onus onus' : OnuMap) (ids : Ids)
    → Map.lookup pon ids ≡ some onus
    → (p : ℕ) → is_some (Map.lookup p (Map.insert pon onus' ids)) ≡ is_some (Map.lookup p ids)
pon-write pon onus onus' ids h p = ground (arith, lookup-insert pon p onus' ids)

-- Either the ONU is known, or its map is nil.
pub Onu-cases :
    (pon onu : ℕ) (ids : Ids)
    → (unis_of pon onu ids ≡ none)
      ⊎ ((onus : OnuMap) × (unis : UniMap) × (Map.lookup pon ids ≡ some onus)
          × (Map.lookup onu onus ≡ some unis))
Onu-cases pon onu ids = elim (Option-cases (Map.lookup pon ids)) [
  | inl no_pon ↦ inl (rw no_pon refl)
  | inr (onus, pon_there) ↦ elim (Option-cases (Map.lookup onu onus)) [
    | inl no_onu ↦ inl (rw pon_there no_onu)
    | inr (unis, onu_there) ↦ inr (onus, unis, pon_there, onu_there)
  ]
]

module _ (pon onu port id flow : ℕ) (ids : Ids) where
  pub store_unknown : unis_of pon onu ids ≡ none → store_id pon onu port id flow ids ≡ panics
  unfolding store_id
  store_unknown h = elim (Option-cases (Map.lookup pon ids)) [
    | inl no_pon ↦ rw no_pon refl
    | inr (onus, pon_there) ↦ rw pon_there (rw (rw pon_there at h) refl)
  ]

  module _ (onus : OnuMap) (unis : UniMap) (hp : Map.lookup pon ids ≡ some onus)
      (hn : Map.lookup onu onus ≡ some unis) where
    pub store_known :
        store_id pon onu port id flow ids
        ≡ ok (Map.insert pon (Map.insert onu (stored port id flow unis) onus) ids)
    unfolding store_id
    store_known = rw hp (rw hn refl)

    stored-Refines :
        (s : Usage)
        → Refines ids s
        → Agrees
            (ok (Map.insert pon (Map.insert onu (stored port id flow unis) onus) ids))
            (specified (store pon onu port id flow) s)
    unfolding specified
    stored-Refines s r = rw known record {
      has_pon = λ p. pon-write pon onus (Map.insert onu new onus) ids hp p ∙ r.has_pon p;
      knows = λ p n. ground (arith, unis-write pon onu new ids onus hp p n, r.knows p n, known);
      uses = λ p n u g k.
          ap (λ o. is_some (flow_of k (flows_in u g o))) (unis-write pon onu new ids onus hp p n)
          ∙ ground (arith, flow-stored port id flow unis u g k, r.uses p n u g k, here);
      tidy = λ p n u g.
          subst (λ o. HasFlow (flows_in u g o)) (sym (unis-write pon onu new ids onus hp p n))
            (if_intro (λ o. HasFlow (flows_in u g o)) ((pon == p) && (onu == n))
              (stored-HasFlow port id flow unis u g
                (subst (λ o. HasFlow (flows_in u g o)) here (r.tidy pon onu u g)))
              (r.tidy p n u g));
    }
      where
        here : unis_of pon onu ids ≡ some unis
        here = rw hp hn

        known : s.knows pon onu ≡ true
        known = sym (r.knows pon onu) ∙ ap is_some here

        new : UniMap
        new = stored port id flow unis

store-Agrees :
    (pon onu port id flow : ℕ) (ids : Ids) (s : Usage)
    → Refines ids s
    → Agrees (store_id pon onu port id flow ids) (specified (store pon onu port id flow) s)
unfolding specified
store-Agrees pon onu port id flow ids s r = elim (Onu-cases pon onu ids) [
  | inl unknown ↦
      rw (store_unknown pon onu port id flow ids unknown)
        (rw (sym (r.knows pon onu) ∙ ap is_some unknown) tt)
  | inr (onus, unis, hp, hn) ↦
      rw (store_known pon onu port id flow ids onus unis hp hn)
        (stored-Refines pon onu port id flow ids onus unis hp hn s r)
]

module _ (pon onu : ℕ) (ids : Ids) (onus : OnuMap) (hp : Map.lookup pon ids ≡ some onus) where
  pub activated : activate_ids pon onu ids ≡ ok (Map.insert pon (Map.insert onu [] onus) ids)
  unfolding activate_ids
  activated = rw hp refl

  activated-Refines :
      (s : Usage)
      → Refines ids s
      → Agrees (ok (Map.insert pon (Map.insert onu [] onus) ids)) (specified (activate pon onu) s)
  unfolding specified
  activated-Refines s r = rw known record {
    has_pon = λ p. pon-write pon onus (Map.insert onu [] onus) ids hp p ∙ r.has_pon p;
    knows = λ p n. ground (arith, unis-write pon onu [] ids onus hp p n, r.knows p n);
    uses = λ p n u g k.
        ap (λ o. is_some (flow_of k (flows_in u g o))) (unis-write pon onu [] ids onus hp p n)
        ∙ ground (arith, no_flows u g, r.uses p n u g k);
    tidy = λ p n u g.
        subst (λ o. HasFlow (flows_in u g o)) (sym (unis-write pon onu [] ids onus hp p n))
          (if_intro (λ o. HasFlow (flows_in u g o)) ((pon == p) && (onu == n)) (rw no_flows (cc))
            (r.tidy p n u g));
  }
    where
      known : s.has_pon pon ≡ true
      known = sym (r.has_pon pon) ∙ ap is_some hp

activate-Agrees :
    (pon onu : ℕ) (ids : Ids) (s : Usage)
    → Refines ids s
    → Agrees (activate_ids pon onu ids) (specified (activate pon onu) s)
unfolding activate_ids specified
activate-Agrees pon onu ids s r = elim (Option-cases (Map.lookup pon ids)) [
  | inl no_pon ↦ rw no_pon (rw (sym (r.has_pon pon) ∙ ap is_some no_pon) tt)
  | inr (onus, hp) ↦ rw (activated pon onu ids onus hp) (activated-Refines pon onu ids onus hp s r)
]

is_some-map : {A B : Type 0} (f : A → B) (o : Option A) → is_some (Option.map f o) ≡ is_some o
is_some-map f none = refl
is_some-map f (some a) = refl

has_pon-free_id :
    (flow p : ℕ) (ids : Ids)
    → is_some (Map.lookup p (free_id flow ids)) ≡ is_some (Map.lookup p ids)
unfolding free_id
has_pon-free_id flow p ids =
    ap is_some (
      lookup-update_values (λ onus. some (free_onus flow onus)) p ids
      ∙ map-some (free_onus flow) (Map.lookup p ids))
    ∙ is_some-map (free_onus flow) (Map.lookup p ids)

freed-Refines :
    (flow : ℕ) (ids : Ids) (s : Usage)
    → Refines ids s
    → Agrees (ok (free_id flow ids)) (specified (free flow) s)
unfolding specified
freed-Refines flow ids s r = record {
  has_pon = λ p. has_pon-free_id flow p ids ∙ r.has_pon p;
  knows = λ p n.
      ap is_some (unis-free_id flow p n ids)
      ∙ is_some-map (free_unis flow) (unis_of p n ids)
      ∙ r.knows p n;
  uses = λ p n u g k.
      ap (λ o. is_some (flow_of k (flows_in u g o))) (unis-free_id flow p n ids)
      ∙ ground (arith, flow-free_unis flow u g k (unis_of p n ids), r.uses p n u g k);
  tidy = λ p n u g.
      subst (λ o. HasFlow (flows_in u g o)) (sym (unis-free_id flow p n ids))
        (free_unis-HasFlow flow u g (unis_of p n ids) (r.tidy p n u g));
}

performed-Agrees :
    (op : Op) (ids : Ids) (s : Usage) → Refines ids s → Agrees (performed op ids) (specified op s)
unfolding performed
performed-Agrees (store pon onu port id flow) ids s r = store-Agrees pon onu port id flow ids s r
performed-Agrees (free flow) ids s r = freed-Refines flow ids s r
performed-Agrees (activate pon onu) ids s r = activate-Agrees pon onu ids s r

bind-Agrees :
    (m : Result Ids) (o : Option Usage) (f : Ids → Result Ids) (g : Usage → Option Usage)
    → Agrees m o
    → ((ids : Ids) (s : Usage) → Refines ids s → Agrees (f ids) (g s))
    → Agrees (m >>= f) (elim o [ none ↦ none | some s ↦ g s ])
bind-Agrees (ok ids) (some s) f g h k = k ids s h
bind-Agrees panics none f g h k = tt
bind-Agrees (ok ids) none f g h k = absurd h
bind-Agrees blocks none f g h k = absurd h
bind-Agrees blocks (some s) f g h k = absurd h
bind-Agrees panics (some s) f g h k = absurd h

-- The nested maps implement a set of uses: from maps that stand for a set of uses and hold no id without a flow, any sequence of storing,
-- freeing and activating either panics with the maps exactly when the specification refuses it (an id is
-- stored for an ONU that was never activated, or an ONU is activated on a PON that is not there), or
-- ends with maps that stand for the specified set, again with no id without a flow.
pub performed_all-Agrees :
    (ops : List Op) (ids : Ids) (s : Usage)
    → Refines ids s
    → Agrees (performed_all ops ids) (specified_all ops s)
unfolding performed_all specified_all
performed_all-Agrees [] ids s r = r
performed_all-Agrees (op ∷ ops) ids s r =
    bind-Agrees (performed op ids) (specified op s) (performed_all ops) (specified_all ops)
      (performed-Agrees op ids s r) (λ ids' s' r'. performed_all-Agrees ops ids' s' r')
