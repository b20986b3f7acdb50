-- ===== src/Onu/Omci/Requests.antt =====
-- The cases of handleOmciRequest for managed entities: MIB reset, Set, Create, Delete
-- (internal/bbsim/devices/onu.go).
use g_simulator.Prelude.{
  ℕ, Bool, true, false, ◌||◌, List, [], ◌∷◌, Option, none, some, ◌==◌, if◌then◌else◌,
}
use g_simulator.Go.{Result, ok, panics, Chan, ◌>>=◌, deref}
use g_simulator.Fsm.{Engine}
use g_simulator.Messages.{Message}
use g_simulator.Pon.{
  remove_alloc_ids_for_onu_sn, remove_gem_port_by_sn, remove_alloc_id, is_alloc_id_allocated,
  store_alloc_id, is_gem_port_allocated, store_gem_port, remove_gem_port,
}
use g_simulator.Uni.{UniPort, PotsPort, enable_uni, disable_uni, enable_pots, disable_pots}
use g_simulator.Omci.EntityId.{equals, from_uint16}
use g_simulator.Omci.Packet.{
  EntityClass, Results, AttributeName, AttributeValue, uint8_value, uint16_value, SetRequest,
  OmciMessage, parse_set_request, parse_create_request, parse_delete_request,
}
use g_simulator.Omci.Responses.{
  Library, create_mib_reset_response, create_set_response, create_create_response,
  create_delete_response,
}
use g_simulator.Onu.State.{Onu, World, owner_of}
use g_simulator.Onu.Omci.Base.{Handled, responds, mds_incremented, respond_then}

-- `v.(uint8)` and `v.(uint16)` of an attribute, which panic on any other type and on a missing key.
abbrev pub as_uint8 : Option AttributeValue → Result ℕ
as_uint8 (some (uint8_value n)) = ok n
as_uint8 _ = panics

abbrev pub as_uint16 : Option AttributeValue → Result ℕ
as_uint16 (some (uint16_value n)) = ok n
as_uint16 _ = panics

module _ (lib : Library) (msg : OmciMessage) where
  -- The case MibResetRequestType.
  unfoldable pub handle_mib_reset : World → Result (Handled × World)
  handle_mib_reset w =
      respond_then (create_mib_reset_response lib msg.omci_pkt msg.omci_msg)
        (λ v. ok (record v {
          onu = record v.onu { mib_data_sync = 0 };
          pon =
              remove_gem_port_by_sn (remove_alloc_ids_for_onu_sn v.pon v.onu.serial_number)
                v.onu.serial_number;
        }))
        w

  -- Create: a GEM port other than 4069 is stored if it is free; `true` if it is not.
  unfoldable pub claim_gem_port : World → Bool × World
  claim_gem_port w = elim (parse_create_request msg.omci_pkt) [
    | none ↦ (false, w)
    | some b ↦ elim b.entity_class [
      | EntityClass.gem_port_network_ctp ↦
          if b.entity_instance == 4069
          then (false, w)
          else elim (is_gem_port_allocated w.pon b.entity_instance) [
            | some sn ↦ (true, w)
            | none ↦ (
              false,
              record w { pon = store_gem_port w.pon b.entity_instance w.onu.serial_number },
            )
          ]
      | _ ↦ (false, w)
    ]
  ]

  -- The case CreateRequestType.
  unfoldable pub handle_create : World → Result (Handled × World)
  unfolding claim_gem_port
  handle_create w =
      let (used, v) = claim_gem_port w in
      if used
      then ok (
        responds (create_create_response lib msg.omci_pkt msg.omci_msg Results.processing_error),
        v,
      )
      else respond_then (create_create_response lib msg.omci_pkt msg.omci_msg Results.success)
          (λ u. ok (mds_incremented u)) v

  -- Delete: a GEM port is given back.
  unfoldable pub free_gem_port : World → World
  free_gem_port w = elim (parse_delete_request msg.omci_pkt) [
    | none ↦ w
    | some b ↦ elim b.entity_class [
      | EntityClass.gem_port_network_ctp ↦ record w {
        pon = remove_gem_port w.pon b.entity_instance;
      }
      | _ ↦ w
    ]
  ]

  -- The case DeleteRequestType.
  unfoldable pub handle_delete : World → Result (Handled × World)
  unfolding free_gem_port
  handle_delete w =
      respond_then (create_delete_response lib msg.omci_pkt msg.omci_msg)
        (λ u. ok (mds_incremented u)) (free_gem_port w)

  -- Set of a T-CONT; `false` if the alloc id is in use.
  unfoldable pub set_t_cont : SetRequest → World → Result (Bool × World)
  set_t_cont r w = do
    alloc_id ← as_uint16 (r.attributes AttributeName.alloc_id)
    entity_id ← as_uint16 (r.attributes AttributeName.managed_entity_id)
    if (alloc_id == 255) || (alloc_id == 65535)
        then ok
            (true, record w { pon = remove_alloc_id w.pon w.onu.pon_port_id w.onu.id entity_id })
        else elim (is_alloc_id_allocated w.pon w.onu.pon_port_id w.onu.id entity_id) [
          | some v ↦ ok (false, w)
          | none ↦ ok (
            true,
            record w {
              pon =
                  store_alloc_id w.pon w.onu.pon_port_id w.onu.id entity_id alloc_id
                    w.onu.serial_number;
            },
          )
        ]

  module _ (engine : Engine) (stream : ℕ) where
    -- A Set locks (1) or unlocks a UNI; errors of the port are only logged.
    unfoldable pub switch_uni : Onu → ℕ → Chan Message → UniPort → Result (Chan Message × UniPort)
    switch_uni o admin_state channel u = do
      (_, channel', v) ←
          if admin_state == 1
          then disable_uni engine (owner_of stream o) channel u
          else enable_uni engine (owner_of stream o) channel u
      ok (channel', v)

    unfoldable pub switch_pots :
        Onu → ℕ → Chan Message → PotsPort → Result (Chan Message × PotsPort)
    switch_pots o admin_state channel p = do
      (_, channel', q) ←
          if admin_state == 1
          then disable_pots engine (owner_of stream o) channel p
          else enable_pots engine (owner_of stream o) channel p
      ok (channel', q)

    -- The first port that passes the test is switched; `none` if there is no such port.
    unfoldable pub at_first {ℓ} :
        {P : Type ℓ}
        → (P → Bool)
        → (Chan Message → P → Result (Chan Message × P))
        → Chan Message
        → List P
        → Result (Option (Chan Message × List P))
    at_first test f channel [] = ok none
    at_first test f channel (p ∷ ps) =
        let rest = at_first test f channel ps in
        if test p then (do (channel', q) ← f channel p; ok (some (channel', q ∷ ps))) else (do
          found ← rest
          elim found [ none ↦ ok none | some (channel', qs) ↦ ok (some (channel', p ∷ qs)) ])

    -- Set of a PPTP; `false` if the ONU has no such port. The attribute is read after the port is found.
    unfoldable pub set_pptp_uni : SetRequest → World → Result (Bool × World)
    unfolding at_first switch_uni
    set_pptp_uni r w = do
      found ←
          at_first (λ u. equals u.me_id (from_uint16 r.base.entity_instance))
            (λ channel u. as_uint8 (r.attributes AttributeName.administrative_state) >>= λ s.
              switch_uni w.onu s channel u)
            w.onu.channel w.onu.uni_ports
      elim found [
        | none ↦ ok (false, w)
        | some (channel, unis) ↦
            ok (true, record w { onu = record w.onu { channel = channel; uni_ports = unis } })
      ]

    unfoldable pub set_pptp_pots : SetRequest → World → Result (Bool × World)
    unfolding at_first switch_pots
    set_pptp_pots r w = do
      found ←
          at_first (λ p. equals p.me_id (from_uint16 r.base.entity_instance))
            (λ channel p. as_uint8 (r.attributes AttributeName.administrative_state) >>= λ s.
              switch_pots w.onu s channel p)
            w.onu.channel w.onu.pots_ports
      elim found [
        | none ↦ ok (false, w)
        | some (channel, pots) ↦
            ok (true, record w { onu = record w.onu { channel = channel; pots_ports = pots } })
      ]

    -- The switch over the class of the entity that is set.
    unfoldable pub apply_set : SetRequest → World → Result (Bool × World)
    unfolding set_t_cont set_pptp_uni set_pptp_pots
    apply_set r w = elim r.base.entity_class [
      | EntityClass.pptp_ethernet_uni ↦ set_pptp_uni r w
      | EntityClass.pptp_pots_uni ↦ set_pptp_pots r w
      | EntityClass.onu_g ↦ do
        state ← as_uint8 (r.attributes AttributeName.administrative_state)
        ok (true, record w { onu = record w.onu { admin_lock_state = state } })
      | EntityClass.t_cont ↦ set_t_cont r w
      | _ ↦ ok (true, w)
    ]

    -- The case SetRequestType: a request that does not parse is used all the same.
    unfoldable pub handle_set : World → Result (Handled × World)
    unfolding apply_set
    handle_set w = do
      r ← deref (parse_set_request msg.omci_pkt)
      (success, v) ← apply_set r w
      if success
          then respond_then (create_set_response lib msg.omci_pkt msg.omci_msg Results.success)
              (λ u. ok (mds_incremented u)) v
          else ok (
            responds (create_set_response lib msg.omci_pkt msg.omci_msg Results.attribute_failure),
            v,
          )
