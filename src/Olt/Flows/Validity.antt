-- ===== src/Olt/Flows/Validity.antt =====
-- What validateFlow decides, and that adding flows keeps GEM ports and alloc ids exclusive
-- (internal/bbsim/devices/olt.go: validateFlow, FlowAdd, FlowRemove).
use g_simulator.Prelude.{ℕ, ◌≡◌, ◌↔◌, refl, Bool, Bool-cases, inl, inr, true, none, ◌==◌, arith}
use g_simulator.Olt.Ids.{Ids, is_taken}
use g_simulator.Olt.Ids.Taken.{NotElsewhere, not_taken-NotElsewhere, found-elsewhere}
use g_simulator.Olt.State.{OltFlow, OltDevice}
use g_simulator.Olt.Flows.{carries_gem, validate_flow}

-- No other ONU of the PON has a GEM port of the flow, or its alloc id.
abbrev pub GemsNotElsewhere : OltFlow → OltDevice → Type 0
GemsNotElsewhere f o = NotElsewhere (carries_gem f.flow) f.access_intf_id f.onu_id o.gem_port_ids

abbrev pub AllocNotElsewhere : OltFlow → OltDevice → Type 0
AllocNotElsewhere f o = NotElsewhere (λ a. a == f.alloc_id) f.access_intf_id f.onu_id o.alloc_ids

taken-not :
    (wanted : ℕ → Bool) (pon onu : ℕ) (ids : Ids)
    → is_taken wanted pon onu ids ≡ true
    → NotElsewhere wanted pon onu ids
    → ⊥
taken-not wanted pon onu ids t e =
    let (onu', port, id, other, w, h) = found-elsewhere wanted pon onu ids t in
    other (e onu' port id w h)

valid-NotElsewhere :
    (f : OltFlow) (o : OltDevice)
    → validate_flow f o ≡ none
    → GemsNotElsewhere f o × AllocNotElsewhere f o
unfolding validate_flow
valid-NotElsewhere f o v = (
  not_taken-NotElsewhere (carries_gem f.flow) f.access_intf_id f.onu_id o.gem_port_ids
      (ground arith),
  not_taken-NotElsewhere (λ a. a == f.alloc_id) f.access_intf_id f.onu_id o.alloc_ids
      (ground arith),
)

NotElsewhere-valid :
    (f : OltFlow) (o : OltDevice)
    → GemsNotElsewhere f o × AllocNotElsewhere f o
    → validate_flow f o ≡ none
unfolding validate_flow
NotElsewhere-valid f o (g, a) =
    elim (Bool-cases (is_taken (carries_gem f.flow) f.access_intf_id f.onu_id o.gem_port_ids)) [
      | inl t ↦ absurd (taken-not _ _ _ _ t g)
      | inr t ↦
          elim (Bool-cases
            (is_taken (λ b. b == f.alloc_id) f.access_intf_id f.onu_id o.alloc_ids)) [
              | inl t' ↦ absurd (taken-not _ _ _ _ t' a)
              | inr t' ↦ rw t (rw t' refl)
            ]
    ]

pub validate_flow_lem :
    (f : OltFlow) (o : OltDevice)
    → (validate_flow f o ≡ none) ↔ (GemsNotElsewhere f o × AllocNotElsewhere f o)
validate_flow_lem f o = (valid-NotElsewhere f o, NotElsewhere-valid f o)
