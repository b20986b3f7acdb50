-- ===== src/Prelude/Map.antt =====
-- Go maps as association lists. A write replaces the entry of its key, so that a key has at
-- most one entry; the order of the entries carries no meaning.
use Prim.Native.Nat.{ℕ}
use mathlib.Core.Path.{◌≡◌, refl}
use mathlib.Core.Logic.{◌↔◌, ◌≢◌, inl, inr}
use mathlib.Core.Bool.{Bool, true, false, ◌||◌}
use mathlib.Core.List.{List, [], ◌∷◌}
use mathlib.Core.Option.{Option, none, some}
use native.Mathlib.Omega.{arith}
use g_simulator.Prelude.Tests.{if◌then◌else◌, ◌==◌ as nat_beq, ==_iff, Bool-cases, Option-cases}

-- Equality of keys.
pub record Eq {ℓ} (A : Type ℓ) : Type ℓ where
  pub beq : A → A → Bool
  pub beq_iff : (a b : A) → (beq a b ≡ true) ↔ (a ≡ b)

instance abbrev pub nat_eq : Eq ℕ
nat_eq = record { beq = nat_beq; beq_iff = ==_iff }

module _ {K V : Type 0} ⦃e : Eq K⦄ where
  unfoldable pub lookup : K → List (K × V) → Option V
  lookup k [] = none
  lookup k ((j, v) ∷ m) = if e.beq j k then some v else lookup k m

  pub insert : K → V → List (K × V) → List (K × V)
  insert k v [] = (k, v) ∷ []
  insert k v ((j, w) ∷ m) = if e.beq j k then (k, v) ∷ m else (j, w) ∷ insert k v m

  -- `delete(m, k)`.
  pub delete : K → List (K × V) → List (K × V)
  delete k [] = []
  delete k ((j, w) ∷ m) = if e.beq j k then delete k m else (j, w) ∷ delete k m

  pub lookup-insert :
      (k j : K) (v : V) (m : List (K × V))
      → lookup j (insert k v m) ≡ (if e.beq k j then some v else lookup j m)
  unfolding lookup insert
  lookup-insert k j v [] = refl
  lookup-insert k j v ((i, w) ∷ m) =
      ground (arith, e.beq_iff k j, e.beq_iff i k, e.beq_iff i j, lookup-insert k j v m)

  pub insert-ne : (k : K) (v : V) (m : List (K × V)) → insert k v m ≢ []
  unfolding insert
  insert-ne k v [] = cc
  insert-ne k v ((j, w) ∷ m) = ground arith

  pub lookup-delete :
      (k j : K) (m : List (K × V))
      → lookup j (delete k m) ≡ (if e.beq k j then none else lookup j m)
  unfolding lookup delete
  lookup-delete k j [] = ground arith
  lookup-delete k j ((i, w) ∷ m) =
      ground (arith, e.beq_iff k j, e.beq_iff i k, e.beq_iff i j, lookup-delete k j m)

abbrev pub keep_unless : {V : Type 0} → (V → Bool) → Option V → Option V
keep_unless drop none = none
keep_unless drop (some v) = if drop v then none else some v

module _ {K V : Type 0} ⦃e : Eq K⦄ (drop : V → Bool) where
  -- `for k, v := range m { if drop(v) { delete(m, k) } }`.
  pub delete_where : List (K × V) → List (K × V)
  delete_where [] = []
  delete_where ((j, w) ∷ m) =
      let rest = delete_where m in if drop w then delete j rest else (j, w) ∷ rest

  pub lookup-delete_where :
      (j : K) (m : List (K × V)) → lookup j (delete_where m) ≡ keep_unless drop (lookup j m)
  unfolding lookup delete_where
  lookup-delete_where j [] = refl
  lookup-delete_where j ((i, w) ∷ m) =
      ground (arith, e.beq_iff i j, lookup-delete i j (delete_where m), lookup-delete_where j m)

module _ {K V : Type 0} ⦃e : Eq K⦄ where
  -- `for k, v := range m { if p(k, v) { return true } }`: over the keys, each with its value.
  any_key : (K → V → Bool) → List (K × V) → List (K × V) → Bool
  any_key p [] m = false
  any_key p ((k, w) ∷ ks) m =
      (elim (lookup k m) [ none ↦ false | some v ↦ p k v ]) || any_key p ks m

  unfoldable pub any_entry : (K → V → Bool) → List (K × V) → Bool
  unfolding any_key
  any_entry p m = any_key p m m

  any_key-lookup :
      (p : K → V → Bool) (ks m : List (K × V)) (k : K) (v w : V)
      → lookup k ks ≡ some w
      → lookup k m ≡ some v
      → p k v ≡ true
      → any_key p ks m ≡ true
  unfolding any_key lookup
  any_key-lookup p [] m k v w h g t = cc
  any_key-lookup p ((j, x) ∷ ks) m k v w h g t =
      ground (arith, e.beq_iff j k, any_key-lookup p ks m k v w)

  -- An entry that the map holds and that passes the test is found.
  pub any_entry-lookup :
      (p : K → V → Bool) (m : List (K × V)) (k : K) (v : V)
      → lookup k m ≡ some v
      → p k v ≡ true
      → any_entry p m ≡ true
  unfolding any_entry
  any_entry-lookup p m k v g t = any_key-lookup p m m k v v g g t

  any_key-found :
      (p : K → V → Bool) (ks m : List (K × V))
      → any_key p ks m ≡ true
      → (k : K) × (v : V) × (lookup k m ≡ some v) × (p k v ≡ true)
  unfolding any_key
  any_key-found p [] m h = absurd (cc)
  any_key-found p ((j, x) ∷ ks) m h = elim (Option-cases (lookup j m)) [
    | inl missing ↦ any_key-found p ks m (rw missing at h)
    | inr (v, held) ↦ elim (Bool-cases (p j v)) [
      | inl found ↦ (j, v, held, found)
      | inr other ↦ any_key-found p ks m (ground arith)
    ]
  ]

  -- What is found is an entry of the map that passes the test.
  pub any_entry-found :
      (p : K → V → Bool) (m : List (K × V))
      → any_entry p m ≡ true
      → (k : K) × (v : V) × (lookup k m ≡ some v) × (p k v ≡ true)
  unfolding any_entry
  any_entry-found p m h = any_key-found p m m h

-- The values of a map one by one, `none` for those that are deleted.
module _ {K V : Type 0} ⦃e : Eq K⦄ (f : V → Option V) where
  pub update_values : List (K × V) → List (K × V)
  update_values [] = []
  update_values ((j, w) ∷ m) =
      let rest = update_values m in elim (f w) [ none ↦ delete j rest | some v ↦ (j, v) ∷ rest ]

  pub lookup-update_values :
      (j : K) (m : List (K × V))
      → lookup j (update_values m) ≡ (elim (lookup j m) [ none ↦ none | some v ↦ f v ])
  unfolding lookup update_values
  lookup-update_values j [] = refl
  lookup-update_values j ((i, w) ∷ m) =
      ground (arith, e.beq_iff i j, lookup-delete i j (update_values m), lookup-update_values j m)
