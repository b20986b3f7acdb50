-- ===== src/Olt/Ids/Exclusive.antt =====
-- Ids stay exclusive to one ONU of a PON (internal/bbsim/devices/olt.go: the store and free functions).
use g_simulator.Prelude.{
  All, ℕ, ◌≡◌, refl, ap, sym, ◌∙◌, Bool, true, false, ◌&&◌, ◌||◌, not, List, [], ◌∷◌, Option, none,
  some, ◌==◌, arith, Option-cases, inl, inr,
}
use mathlib.Core.Option
use g_simulator.Prelude.Map
use g_simulator.Prelude.Map.{lookup-insert, nat_eq}
use g_simulator.Go.{Ensures-map, Ensures, Ensures-bind}
use g_simulator.Olt.Ids.{
  FlowMap, UniMap, OnuMap, Ids, store_id, store_ids, activate_ids, free_unis, free_id, free_flow,
}
use g_simulator.Olt.Ids.Entries.{
  is_some, unis_of, flows_in, stored, unis-write, has-stored, no_flows, unis-free_id,
  flows-free_unis,
}
use g_simulator.Olt.Ids.Refines.{Onu-cases, store_unknown, store_known}
use g_simulator.Olt.Ids.Taken.{has, NotElsewhere}

-- No two ONUs of a PON have the same id.
abbrev pub IsExclusive : Ids → Type 0
IsExclusive ids =
    (pon onu onu' port port' id : ℕ)
    → has pon onu port id ids ≡ true
    → has pon onu' port' id ids ≡ true
    → onu ≡ onu'

no_flows_at : (n u g : ℕ) → is_some (flows_in u g (Map.lookup n [])) ≡ false
unfolding Map.lookup
no_flows_at n u g = refl

module _ (pon onu port id flow : ℕ) (ids : Ids) where
  has-known :
      (onus : OnuMap) (unis : UniMap)
      → Map.lookup pon ids ≡ some onus
      → Map.lookup onu onus ≡ some unis
      → (p n u g : ℕ)
      → has p n u g (Map.insert pon (Map.insert onu (stored port id flow unis) onus) ids)
        ≡ (((pon == p) && (onu == n)) && ((port == u) && (id == g))) || has p n u g ids
  has-known onus unis hp hn p n u g =
      ap (λ o. is_some (flows_in u g o))
        (unis-write pon onu (stored port id flow unis) ids onus hp p n)
      ∙ ground (arith, has-stored port id flow unis u g, here)
    where
      here : unis_of pon onu ids ≡ some unis
      here = rw hp hn

  -- Storing puts one id into use.
  has-store_id :
      Ensures
        (λ ids'.
          (p n u g : ℕ)
          → has p n u g ids'
            ≡ (((pon == p) && (onu == n)) && ((port == u) && (id == g))) || has p n u g ids)
        (store_id pon onu port id flow ids)
  has-store_id = elim (Onu-cases pon onu ids) [
    | inl unknown ↦ rw (store_unknown pon onu port id flow ids unknown) tt
    | inr (onus, unis, hp, hn) ↦
        rw (store_known pon onu port id flow ids onus unis hp hn) (has-known onus unis hp hn)
  ]

-- Activating an ONU takes its ids out of use.
has-activate_ids :
    (pon onu : ℕ) (ids : Ids)
    → Ensures
        (λ ids'.
          (p n u g : ℕ) → has p n u g ids' ≡ not ((pon == p) && (onu == n)) && has p n u g ids)
        (activate_ids pon onu ids)
unfolding activate_ids
has-activate_ids pon onu ids = elim (Option-cases (Map.lookup pon ids)) [
  | inl no_pon ↦ rw no_pon tt
  | inr (onus, hp) ↦ rw hp λ p n u g.
      ap (λ o. is_some (flows_in u g o)) (unis-write pon onu [] ids onus hp p n)
      ∙ ground (arith, no_flows u g)
]

had_flows :
    (flow : ℕ) (o : Option FlowMap)
    → is_some (elim o [ none ↦ none | some m ↦ free_flow flow m ]) ≡ true
    → is_some o ≡ true
had_flows flow none h = h
had_flows flow (some m) h = refl

had_unis :
    (flow u g : ℕ) (o : Option UniMap)
    → is_some (flows_in u g (Option.map (free_unis flow) o)) ≡ true
    → is_some (flows_in u g o) ≡ true
had_unis flow u g none h = h
had_unis flow u g (some unis) h =
    had_flows flow (flows_in u g (some unis)) (sym (ap is_some (flows-free_unis flow u g unis)) ∙ h)

-- Freeing puts no id into use.
has-free_id :
    (flow p n u g : ℕ) (ids : Ids) → has p n u g (free_id flow ids) ≡ true → has p n u g ids ≡ true
has-free_id flow p n u g ids h =
    had_unis flow u g (unis_of p n ids)
      (sym (ap (λ o. is_some (flows_in u g o)) (unis-free_id flow p n ids)) ∙ h)

pub free_id-IsExclusive : (flow : ℕ) (ids : Ids) → IsExclusive ids → IsExclusive (free_id flow ids)
free_id-IsExclusive flow ids x p n n' u u' g h h' =
    x p n n' u u' g (has-free_id flow p n u g ids h) (has-free_id flow p n' u' g ids h')

pub activate_ids-IsExclusive :
    (pon onu : ℕ) (ids : Ids) → IsExclusive ids → Ensures IsExclusive (activate_ids pon onu ids)
activate_ids-IsExclusive pon onu ids x =
    Ensures-map _ IsExclusive (activate_ids pon onu ids)
      (λ ids' k p n n' u u' g h h'. ground (arith, k p n u g, k p n' u' g, x p n n' u u' g))
      (has-activate_ids pon onu ids)

-- Ids are exclusive, and what is wanted is not elsewhere.
abbrev pub CanStore : (ℕ → Bool) → ℕ → ℕ → Ids → Type 0
CanStore wanted pon onu ids = IsExclusive ids × NotElsewhere wanted pon onu ids

module _ (wanted : ℕ → Bool) (pon onu port flow : ℕ) where
  pub store_id-CanStore :
      (id : ℕ) (ids : Ids)
      → wanted id ≡ true
      → CanStore wanted pon onu ids
      → Ensures (CanStore wanted pon onu) (store_id pon onu port id flow ids)
  store_id-CanStore id ids w (x, e) =
      Ensures-map _ (CanStore wanted pon onu) (store_id pon onu port id flow ids)
        (λ ids' k. (
          λ p n n' u u' g h h'.
              ground (arith, k p n u g, k p n' u' g, x p n n' u u' g, e n u g, e n' u' g, w),
          λ n u g v h. ground (arith, k pon n u g, e n u g),
        ))
        (has-store_id pon onu port id flow ids)

  -- All GEM ports of a replicated flow are wanted.
  pub store_ids-CanStore :
      (gems : List (ℕ × ℕ)) (ids : Ids)
      → All (λ q. wanted q.1 ≡ true) gems
      → CanStore wanted pon onu ids
      → Ensures (CanStore wanted pon onu) (store_ids pon onu port gems flow ids)
  unfolding store_ids
  store_ids-CanStore [] ids w c = c
  store_ids-CanStore ((b, gem) ∷ gems) ids w c =
      Ensures-bind (CanStore wanted pon onu) (CanStore wanted pon onu)
        (store_id pon onu port gem flow ids) (store_ids pon onu port gems flow)
        (store_id-CanStore gem ids w.0 c) (λ ids' c'. store_ids-CanStore gems ids' w.1 c')

renewed-had :
    (pon p n u g : ℕ) (ids : Ids)
    → has p n u g (Map.insert pon [] ids) ≡ true
    → has p n u g ids ≡ true
renewed-had pon p n u g ids h = ground (arith, lookup-insert pon p [] ids, no_flows_at n u g)

nothing : (p n u g : ℕ) → has p n u g [] ≡ true → ⊥
unfolding Map.lookup
nothing p n u g h = cc

-- The map of a PON that is made anew.
pub renewed-IsExclusive :
    (pon : ℕ) (ids : Ids) → IsExclusive ids → IsExclusive (Map.insert pon [] ids)
renewed-IsExclusive pon ids x p n n' u u' g h h' =
    x p n n' u u' g (renewed-had pon p n u g ids h) (renewed-had pon p n' u' g ids h')

pub empty-IsExclusive : IsExclusive []
empty-IsExclusive p n n' u u' g h h' = absurd (nothing p n u g h)
