-- ===== src/Pon/Ownership.antt =====
-- Who owns the resources of a PON port after an operation of Pon: the effect of each operation is
-- stated through the `is_..._allocated` queries.
use g_simulator.Prelude.{ℕ, ◌≡◌, none, some, ◌==◌, if◌then◌else◌}
use g_simulator.Prelude.Map.{nat_eq, lookup-insert, lookup-delete, lookup-delete_where, keep_unless}
use g_simulator.Messages.{Sn, same_sn}
use g_simulator.Pon.{
  Resources, alloc_key, same_key, alloc_key_eq, store_gem_port, remove_gem_port,
  remove_gem_port_by_sn, is_gem_port_allocated, is_alloc_id_allocated, store_alloc_id,
  remove_alloc_id, remove_alloc_ids_for_onu_sn, store_onu_id, remove_onu_id, is_onu_id_allocated,
}

module _ (p : Resources) (gem : ℕ) (sn : Sn) where
  pub gem-store_gem_port :
      (g : ℕ)
      → is_gem_port_allocated (store_gem_port p gem sn) g
        ≡ (if gem == g then some sn else is_gem_port_allocated p g)
  unfolding is_gem_port_allocated store_gem_port
  gem-store_gem_port g = lookup-insert gem g sn p.allocated_gem_ports

module _ (p : Resources) where
  pub gem-remove_gem_port :
      (gem g : ℕ)
      → is_gem_port_allocated (remove_gem_port p gem) g
        ≡ (if gem == g then none else is_gem_port_allocated p g)
  unfolding is_gem_port_allocated remove_gem_port
  gem-remove_gem_port gem g = lookup-delete gem g p.allocated_gem_ports

  -- Exactly the GEM ports of the ONU go.
  pub gem-remove_gem_port_by_sn :
      (sn : Sn) (g : ℕ)
      → is_gem_port_allocated (remove_gem_port_by_sn p sn) g
        ≡ keep_unless (λ s. same_sn s sn) (is_gem_port_allocated p g)
  unfolding is_gem_port_allocated remove_gem_port_by_sn
  gem-remove_gem_port_by_sn sn g = lookup-delete_where _ g p.allocated_gem_ports

  pub alloc-remove_alloc_ids_for_onu_sn :
      (sn : Sn) (pon onu entity : ℕ)
      → is_alloc_id_allocated (remove_alloc_ids_for_onu_sn p sn) pon onu entity
        ≡ keep_unless (λ v. same_sn sn v.onu_sn) (is_alloc_id_allocated p pon onu entity)
  unfolding is_alloc_id_allocated remove_alloc_ids_for_onu_sn
  alloc-remove_alloc_ids_for_onu_sn sn pon onu entity =
      lookup-delete_where _ _ p.allocated_alloc_ids

  pub onu_id-remove_onu_id :
      (id i : ℕ)
      → is_onu_id_allocated (remove_onu_id p id) i
        ≡ (if id == i then none else is_onu_id_allocated p i)
  unfolding is_onu_id_allocated remove_onu_id
  onu_id-remove_onu_id id i = lookup-delete id i p.allocated_onu_ids

  pub onu_id-store_onu_id :
      (id : ℕ) (sn : Sn) (i : ℕ)
      → is_onu_id_allocated (store_onu_id p id sn) i
        ≡ (if id == i then some sn else is_onu_id_allocated p i)
  unfolding is_onu_id_allocated store_onu_id
  onu_id-store_onu_id id sn i = lookup-insert id i sn p.allocated_onu_ids

  pub alloc-store_alloc_id :
      (pon onu entity alloc_id : ℕ) (sn : Sn) (pon' onu' entity' : ℕ)
      → is_alloc_id_allocated (store_alloc_id p pon onu entity alloc_id sn) pon' onu' entity' ≡ (
          if same_key (alloc_key pon onu entity) (alloc_key pon' onu' entity')
          then some (record { onu_sn = sn; alloc_id = alloc_id })
          else is_alloc_id_allocated p pon' onu' entity')
  unfolding is_alloc_id_allocated store_alloc_id
  alloc-store_alloc_id pon onu entity alloc_id sn pon' onu' entity' =
      lookup-insert _ _ _ p.allocated_alloc_ids

  pub alloc-remove_alloc_id :
      (pon onu entity pon' onu' entity' : ℕ)
      → is_alloc_id_allocated (remove_alloc_id p pon onu entity) pon' onu' entity' ≡ (
          if same_key (alloc_key pon onu entity) (alloc_key pon' onu' entity')
          then none
          else is_alloc_id_allocated p pon' onu' entity')
  unfolding is_alloc_id_allocated remove_alloc_id
  alloc-remove_alloc_id pon onu entity pon' onu' entity' = lookup-delete _ _ p.allocated_alloc_ids
