-- ===== src/Olt/Flows.antt =====
-- The flows that the controller adds and removes (internal/bbsim/devices/olt.go: FlowAdd, FlowRemove,
-- validateFlow, storeGemPortIdByFlow). `some` beside the OLT is the error returned.
pub mod Validity
pub mod Exclusive
pub mod Faults
use g_simulator.Prelude.{
  ℕ, Bool, true, false, ◌||◌, List, [], ◌∷◌, ◌++◌, Option, none, some, ◌==◌, if◌then◌else◌, find,
}
use g_simulator.Prelude.Map
use g_simulator.Prelude.Map.{nat_eq}
use g_simulator.Go.{Result, ok, ◌>>=◌, deref, send}
use g_simulator.Messages.{Flow, Message, flow_add, flow_removed}
use g_simulator.Onu.Machine.{OnuState}
use g_simulator.Onu.State.{Onu}
use g_simulator.Onu.Flows.{with_first, delete_flow}
use g_simulator.Olt.Ids.{Ids, store_id, store_ids, free_id, is_taken}
use g_simulator.Olt.State.{
  PonPort, OltFlow, no_intf, OltDevice, get_pon_by_id, get_onu_by_id, holds_flow_id,
  get_onu_by_flow_id,
}

pub data FlowError : Type 0 where
  onu_not_found onu_is_down gem_in_use alloc_id_in_use flow_not_found : FlowError

-- The loop over `PbitToGemport` in validateFlow.
unfoldable pub carries : ℕ → List (ℕ × ℕ) → Bool
carries gem [] = false
carries gem ((_, g) ∷ rest) = (gem == g) || carries gem rest

-- Whether a flow carries a GEM port.
unfoldable pub carries_gem : Flow → ℕ → Bool
unfolding carries
carries_gem f gem = if f.replicate_flow then carries gem f.pbit_to_gemport else gem == f.gemport_id

-- validateFlow.
unfoldable pub validate_flow : OltFlow → OltDevice → Option FlowError
validate_flow f o =
    if is_taken (carries_gem f.flow) f.access_intf_id f.onu_id o.gem_port_ids
    then some gem_in_use
    else if is_taken (λ a. a == f.alloc_id) f.access_intf_id f.onu_id o.alloc_ids
    then some alloc_id_in_use
    else none

-- storeGemPortIdByFlow.
unfoldable pub store_gem_port_id_by_flow : OltFlow → Ids → Result Ids
store_gem_port_id_by_flow f ids =
    if f.flow.replicate_flow
    then store_ids f.access_intf_id f.onu_id f.flow.port_no f.flow.pbit_to_gemport f.flow.flow_id
        ids
    else store_id f.access_intf_id f.onu_id f.flow.port_no f.flow.gemport_id f.flow.flow_id ids

-- storeAllocId.
unfoldable pub store_alloc_id_by_flow : OltFlow → Ids → Result Ids
store_alloc_id_by_flow f ids =
    store_id f.access_intf_id f.onu_id f.flow.port_no f.alloc_id f.flow.flow_id ids

-- A method of the first ONU with an id of the first PON port with an id.
unfoldable pub with_onu : ℕ → ℕ → (Onu → Result Onu) → List PonPort → Result (List PonPort)
with_onu pon_id onu_id f =
    with_first (λ p. p.id == pon_id)
      λ p. do onus ← with_first (λ o. o.id == onu_id) f p.onus; ok (record p { onus = onus })

-- `onu.Channel <- msg`.
unfoldable pub put : Message → Onu → Result Onu
put msg o = do channel ← send o.channel msg; ok (record o { channel = channel })

-- `onu.InternalState.Is(OnuStatePonDisabled) || onu.InternalState.Is(OnuStateDisabled)`.
abbrev pub is_down : OnuState → Bool
is_down OnuState.pon_disabled = true
is_down OnuState.disabled = true
is_down _ = false

-- `onu.Flows = append(onu.Flows, flowKey)`.
abbrev pub append_flow : ℕ → Onu → Onu
append_flow key o = record o { flows = o.flows ++ key ∷ [] }

-- FlowAdd, once the flow is known to be valid.
unfoldable pub store_flow : OltFlow → OltDevice → Result (Option FlowError × OltDevice)
store_flow f o = do
  gems ← store_gem_port_id_by_flow f o.gem_port_ids
  allocs ← store_alloc_id_by_flow f o.alloc_ids
  pons ← with_onu f.access_intf_id f.onu_id (put (flow_add f.flow)) o.pons
  ok (none, record o { gem_port_ids = gems; alloc_ids = allocs; pons = pons })

-- FlowAdd at an ONU that is there.
unfoldable pub flow_add_onu : OltFlow → OltDevice → Result (Option FlowError × OltDevice)
flow_add_onu f o = do
  pons ←
      with_onu f.access_intf_id f.onu_id
        (λ onu. ok (if o.enable_perf then onu else append_flow f.flow.flow_id onu)) o.pons
  let o' = record o { pons = pons }
  elim (validate_flow f o') [ some e ↦ ok (some e, o') | none ↦ store_flow f o' ]

-- FlowAdd from GetOnuById on.
unfoldable pub flow_add_at : OltFlow → OltDevice → PonPort → Result (Option FlowError × OltDevice)
flow_add_at f o pon = elim (get_onu_by_id f.onu_id pon) [
  | none ↦ ok (some onu_not_found, o)
  | some onu ↦ if is_down onu.internal_state then ok (some onu_is_down, o) else flow_add_onu f o
]

-- FlowAdd.
unfoldable pub flow_add_olt : OltFlow → OltDevice → Result (Option FlowError × OltDevice)
unfolding flow_add_at
flow_add_olt f o0 =
    let o = record o0 {
      flows = if o0.enable_perf then o0.flows else Map.insert f.flow.flow_id f o0.flows;
    } in
    if (f.access_intf_id == no_intf) || f.is_multicast
    then ok (none, o)
    else do pon ← deref (get_pon_by_id f.access_intf_id o); flow_add_at f o pon

-- The end of FlowRemove.
unfoldable pub tell_removed : OltFlow → OltDevice → Result (Option FlowError × OltDevice)
tell_removed f o =
    if (f.access_intf_id == no_intf) || f.is_multicast
    then ok (none, o)
    else elim (get_onu_by_flow_id f.flow.flow_id o.pons) [
      | none ↦ ok (some onu_not_found, o)
      | some _ ↦ do
        pons ←
            with_first
              (λ p. elim (find (λ u. holds_flow_id f.flow.flow_id u.flow_ids) p.onus) [
                | none ↦ false
                | some _ ↦ true
              ])
              (λ p. do
                onus ←
                    with_first (λ u. holds_flow_id f.flow.flow_id u.flow_ids)
                      (put (flow_removed f.flow)) p.onus
                ok (record p { onus = onus }))
              o.pons
        ok (none, record o { pons = pons })
    ]

abbrev pub forget_flow : ℕ → OltDevice → OltDevice
forget_flow id o = record o { flows = Map.delete id o.flows }

-- FlowRemove from the flow that was stored; a missing PON port or ONU ends it without an error.
unfoldable pub remove_stored : OltFlow → OltFlow → OltDevice → Result (Option FlowError × OltDevice)
remove_stored f stored o =
    if stored.access_intf_id == no_intf
    then tell_removed f (forget_flow f.flow.flow_id o)
    else elim (get_pon_by_id stored.access_intf_id o) [
      | none ↦ ok (none, o)
      | some pon ↦ elim (get_onu_by_id stored.onu_id pon) [
        | none ↦ ok (none, o)
        | some _ ↦ do
          pons ←
              with_onu stored.access_intf_id stored.onu_id
                (λ onu. ok (delete_flow f.flow.flow_id onu)) o.pons
          tell_removed f (forget_flow f.flow.flow_id (record o { pons = pons }))
      ]
    ]

-- FlowRemove.
unfoldable pub flow_remove_olt : OltFlow → OltDevice → Result (Option FlowError × OltDevice)
unfolding remove_stored
flow_remove_olt f o0 =
    let o = record o0 {
      gem_port_ids = free_id f.flow.flow_id o0.gem_port_ids;
      alloc_ids = free_id f.flow.flow_id o0.alloc_ids;
    } in
    if o0.enable_perf then tell_removed f o else elim (Map.lookup f.flow.flow_id o0.flows) [
      | none ↦ ok (some flow_not_found, o)
      | some stored ↦ remove_stored f stored o
    ]
