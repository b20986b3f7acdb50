-- ===== src/Onu/Omci/AllocIds.antt =====
-- Alloc ids under OMCI Set of a T-CONT (internal/bbsim/devices/onu.go, handleOmciRequest).
use g_simulator.Prelude.{ℕ, ◌≡◌, ◌≢◌, refl, Bool, true, false, Option, none, some, arith}
use g_simulator.Prelude.Map.{nat_eq}
use g_simulator.Go.{ok, Yields}
use g_simulator.Pon.{AllocIdVal, is_alloc_id_allocated, store_alloc_id, remove_alloc_id}
use g_simulator.Pon.Ownership.{alloc-store_alloc_id, alloc-remove_alloc_id}
use g_simulator.Omci.Packet.{AttributeName, SetRequest, uint16_value, OmciMessage}
use g_simulator.Omci.Responses.{Library}
use g_simulator.Onu.State.{World}
use g_simulator.Onu.Omci.Requests.{set_t_cont}

-- What a lookup of this ONU's entity gives.
abbrev pub alloc_of : World → ℕ → Option AllocIdVal
alloc_of w entity = is_alloc_id_allocated w.pon w.onu.pon_port_id w.onu.id entity

-- The request sets the alloc id `a` of the entity.
pub record Sets (r : SetRequest) (a entity : ℕ) : Type 0 where
  pub alloc_id : r.attributes AttributeName.alloc_id ≡ some (uint16_value a)
  pub entity_id : r.attributes AttributeName.managed_entity_id ≡ some (uint16_value entity)

module _ (lib : Library) (msg : OmciMessage) (entity : ℕ) where
  set_free :
      (a : ℕ) (r : SetRequest) (w : World)
      → Sets r a entity
      → a ≢ 255
      → a ≢ 65535
      → alloc_of w entity ≡ none
      → set_t_cont lib msg r w
        ≡ ok (
          true,
          record w {
            pon = store_alloc_id w.pon w.onu.pon_port_id w.onu.id entity a w.onu.serial_number;
          },
        )
  unfolding set_t_cont
  set_free a r w s n m f = ground (arith, s.alloc_id, s.entity_id)

  set_taken :
      (a : ℕ) (r : SetRequest) (w : World) (v : AllocIdVal)
      → Sets r a entity
      → a ≢ 255
      → a ≢ 65535
      → alloc_of w entity ≡ some v
      → set_t_cont lib msg r w ≡ ok (false, w)
  unfolding set_t_cont
  set_taken a r w v s n m f = ground (arith, s.alloc_id, s.entity_id)

  unset :
      (a : ℕ) (r : SetRequest) (w : World)
      → Sets r a entity
      → a ≡ 65535
      → set_t_cont lib msg r w
        ≡ ok (true, record w { pon = remove_alloc_id w.pon w.onu.pon_port_id w.onu.id entity })
  unfolding set_t_cont
  unset a r w s m = ground (arith, s.alloc_id, s.entity_id)

  -- An entity of which a T-CONT's alloc id was set: it holds the alloc id under the ONU's serial number,
  -- no other alloc id can be set, and setting 65535 frees it.
  abbrev pub IsAllocated : ℕ → World → World → Type 0
  IsAllocated a w v =
      (alloc_of v entity ≡ some (record { onu_sn = w.onu.serial_number; alloc_id = a }))
      × ((other : ℕ) → other ≢ entity → alloc_of v other ≡ alloc_of w other)
      × ((b : ℕ) (q : SetRequest)
          → Sets q b entity
          → b ≢ 255
          → b ≢ 65535
          → set_t_cont lib msg q v ≡ ok (false, v))
      × ((q : SetRequest)
          → Sets q 65535 entity
          → Yields (λ (x : Bool × World). (x.0 ≡ true) × (alloc_of x.1 entity ≡ none))
              (set_t_cont lib msg q v))

  -- Setting an alloc id other than 255 and 65535 of an entity that has none succeeds: the entity has it
  -- then and the ONU's other entities are as before; until 65535 is set, which frees the entity, every
  -- further alloc id for it, the same one included, is refused with no change.
  pub set_t_cont_lem :
      (a : ℕ) (r : SetRequest) (w : World)
      → Sets r a entity
      → a ≢ 255
      → a ≢ 65535
      → alloc_of w entity ≡ none
      → Yields (λ (x : Bool × World). (x.0 ≡ true) × IsAllocated a w x.1) (set_t_cont lib msg r w)
  set_t_cont_lem a r w s n m f =
      let o = w.onu in
      let v = record w { pon = store_alloc_id w.pon o.pon_port_id o.id entity a o.serial_number } in
      let stored =
        alloc-store_alloc_id w.pon o.pon_port_id o.id entity a o.serial_number o.pon_port_id o.id in
      rw (set_free a r w s n m f) (
        refl,
        (
          ground (arith, stored entity),
          λ other ne. ground (arith, stored other),
          λ b q t nb mb.
              set_taken b q v (record { onu_sn = o.serial_number; alloc_id = a }) t nb mb
                (ground (arith, stored entity)),
          λ q t. rw (unset 65535 q v t refl) (
            refl,
            ground (
              arith,
              alloc-remove_alloc_id
                  (store_alloc_id w.pon o.pon_port_id o.id entity a o.serial_number) o.pon_port_id
                  o.id entity o.pon_port_id o.id entity,
            ),
          ),
        ),
      )
