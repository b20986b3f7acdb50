-- ===== src/Olt/Ids/Taken.antt =====
-- When an id that a flow carries is taken (internal/bbsim/devices/olt.go, the loops of validateFlow).
use g_simulator.Prelude.{
  ℕ, ◌≡◌, ◌≢◌, refl, sym, ◌∙◌, Bool, true, false, List, Option, none, some, ◌==◌, arith,
  Option-cases, Bool-cases, ==_iff, inl, inr,
}
use g_simulator.Prelude.Map
use g_simulator.Prelude.Map.{nat_eq, any_entry-lookup, any_entry-found}
use g_simulator.Olt.Ids.{FlowMap, IdMap, UniMap, OnuMap, Ids, at, is_taken}
use g_simulator.Olt.Ids.Entries.{is_some, then_lookup, lookup-nil_or, unis_of, flows_of}

-- An id is in use at a port of an ONU.
abbrev pub has : ℕ → ℕ → ℕ → ℕ → Ids → Bool
has pon onu port id ids = is_some (flows_of pon onu port id ids)

-- No other ONU of the PON has an id that is wanted.
abbrev pub NotElsewhere : (ℕ → Bool) → ℕ → ℕ → Ids → Type 0
NotElsewhere wanted pon onu ids =
    (onu' port id : ℕ) → wanted id ≡ true → has pon onu' port id ids ≡ true → onu' ≡ onu

then_lookup-some :
    {V : Type 0} (k : ℕ) (o : Option (List (ℕ × V))) (v : V)
    → then_lookup k o ≡ some v
    → (m : List (ℕ × V)) × (o ≡ some m) × (Map.lookup k m ≡ some v)
then_lookup-some k none v h = absurd (cc)
then_lookup-some k (some m) v h = (m, refl, h)

-- The maps on the way to an id that is in use.
record Held (pon onu port id : ℕ) (ids : Ids) : Type 0 where
  onus : OnuMap
  unis : UniMap
  uni : IdMap
  flows : FlowMap
  at_pon : Map.lookup pon ids ≡ some onus
  at_onu : Map.lookup onu onus ≡ some unis
  at_port : Map.lookup port unis ≡ some uni
  at_id : Map.lookup id uni ≡ some flows

has-Held :
    (pon onu port id : ℕ) (ids : Ids) → has pon onu port id ids ≡ true → Held pon onu port id ids
has-Held pon onu port id ids h = elim (Option-cases (flows_of pon onu port id ids)) [
  | inl e ↦ absurd (cc)
  | inr (flows, e) ↦
      let (uni, e1, at_id) = then_lookup-some id (then_lookup port (unis_of pon onu ids)) flows e in
      let (unis, e2, at_port) = then_lookup-some port (unis_of pon onu ids) uni e1 in
      let (onus, at_pon, at_onu) = then_lookup-some onu (Map.lookup pon ids) unis e2 in
      record {
        onus = onus;
        unis = unis;
        uni = uni;
        flows = flows;
        at_pon = at_pon;
        at_onu = at_onu;
        at_port = at_port;
        at_id = at_id;
      }
]

Held-has :
    (pon onu port id : ℕ) (ids : Ids) → Held pon onu port id ids → has pon onu port id ids ≡ true
Held-has pon onu port id ids h = rw h.at_pon (rw h.at_onu (rw h.at_port (rw h.at_id refl)))

module _ (wanted : ℕ → Bool) (pon onu : ℕ) (ids : Ids) where
  -- What another ONU has is found.
  taken :
      (onu' port id : ℕ)
      → Held pon onu' port id ids
      → (onu' == onu) ≡ false
      → wanted id ≡ true
      → is_taken wanted pon onu ids ≡ true
  unfolding is_taken
  taken onu' port id h other w =
      any_entry-lookup _ (at pon ids) onu' h.unis
        (lookup-nil_or onu' (Map.lookup pon ids) ∙ rw h.at_pon h.at_onu)
        (rw other (
          any_entry-lookup _ h.unis port h.uni h.at_port
            (any_entry-lookup _ h.uni id h.flows h.at_id w)))

  pub not_taken-NotElsewhere : is_taken wanted pon onu ids ≡ false → NotElsewhere wanted pon onu ids
  not_taken-NotElsewhere free onu' port id w h = elim (Bool-cases (onu' == onu)) [
    | inl same ↦ (==_iff onu' onu).0 same
    | inr other ↦
        let found = taken onu' port id (has-Held pon onu' port id ids h) other w in absurd (cc)
  ]

  -- What is found is had by another ONU.
  pub found-elsewhere :
      is_taken wanted pon onu ids ≡ true
      → (onu' : ℕ) × (port : ℕ) × (id : ℕ) × (onu' ≢ onu)
        × (wanted id ≡ true)
        × (has pon onu' port id ids ≡ true)
  unfolding is_taken
  found-elsewhere t =
      let (onu', unis, at_onu, e1) = any_entry-found _ (at pon ids) t in
      elim (Bool-cases (onu' == onu)) [
        | inl same ↦ absurd (let e = rw same at e1 in cc)
        | inr other ↦
            let (port, uni, at_port, e2) = any_entry-found _ unis (rw other at e1) in
            let (id, flows, at_id, w) = any_entry-found _ uni e2 in
            let there : unis_of pon onu' ids ≡ some unis =
              sym (lookup-nil_or onu' (Map.lookup pon ids)) ∙ at_onu in
            (onu', port, id, ground arith, w, rw there (rw at_port (rw at_id refl)))
      ]
