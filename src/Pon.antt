-- ===== src/Pon.antt =====
-- The resources that a PON port hands out to its ONUs (internal/bbsim/devices/pon.go): ONU ids, GEM
-- ports and alloc ids. The source guards each map by a lock, so each operation is one step.
pub mod Ownership
use g_simulator.Prelude.{
  ℕ, ◌≡◌, ◌↔◌, refl, Bool, true, false, ◌&&◌, List, [], Option, none, some, ◌==◌, arith,
}
use g_simulator.Prelude.Map
use g_simulator.Prelude.Map.{Eq, nat_eq}
use g_simulator.Messages.{Sn, same_sn}

-- AllocIDKey.
pub record AllocIdKey : Type 0 where
  pub pon_id : ℕ
  pub onu_id : ℕ
  pub entity_id : ℕ

abbrev pub same_key : AllocIdKey → AllocIdKey → Bool
same_key a b = (a.pon_id == b.pon_id) && ((a.onu_id == b.onu_id) && (a.entity_id == b.entity_id))

pub same_key_iff : (a b : AllocIdKey) → (same_key a b ≡ true) ↔ (a ≡ b)
same_key_iff a b = ground arith

instance abbrev pub alloc_key_eq : Eq AllocIdKey
alloc_key_eq = record { beq = same_key; beq_iff = same_key_iff }

-- AllocIDVal.
pub record AllocIdVal : Type 0 where
  pub onu_sn : Sn
  pub alloc_id : ℕ

-- The maps of a PonPort.
pub record Resources : Type 0 where
  pub allocated_gem_ports : List (ℕ × Sn)
  pub allocated_onu_ids : List (ℕ × Sn)
  pub allocated_alloc_ids : List (AllocIdKey × AllocIdVal)

unfoldable pub store_onu_id : Resources → ℕ → Sn → Resources
store_onu_id p onu_id sn = record p { allocated_onu_ids = Map.insert onu_id sn p.allocated_onu_ids }

unfoldable pub remove_onu_id : Resources → ℕ → Resources
remove_onu_id p onu_id = record p { allocated_onu_ids = Map.delete onu_id p.allocated_onu_ids }

unfoldable pub remove_all_onu_ids : Resources → Resources
remove_all_onu_ids p = record p { allocated_onu_ids = [] }

-- `some sn` for the source's `true, sn`.
unfoldable pub is_onu_id_allocated : Resources → ℕ → Option Sn
is_onu_id_allocated p onu_id = Map.lookup onu_id p.allocated_onu_ids

unfoldable pub store_gem_port : Resources → ℕ → Sn → Resources
store_gem_port p gem sn = record p { allocated_gem_ports = Map.insert gem sn p.allocated_gem_ports }

unfoldable pub remove_gem_port : Resources → ℕ → Resources
remove_gem_port p gem = record p { allocated_gem_ports = Map.delete gem p.allocated_gem_ports }

unfoldable pub remove_gem_port_by_sn : Resources → Sn → Resources
remove_gem_port_by_sn p onu_sn = record p {
  allocated_gem_ports = Map.delete_where (λ sn. same_sn sn onu_sn) p.allocated_gem_ports;
}

unfoldable pub remove_all_gem_ports : Resources → Resources
remove_all_gem_ports p = record p { allocated_gem_ports = [] }

unfoldable pub is_gem_port_allocated : Resources → ℕ → Option Sn
is_gem_port_allocated p gem = Map.lookup gem p.allocated_gem_ports

abbrev pub alloc_key : ℕ → ℕ → ℕ → AllocIdKey
alloc_key pon_id onu_id entity_id = record {
  pon_id = pon_id;
  onu_id = onu_id;
  entity_id = entity_id;
}

unfoldable pub store_alloc_id : Resources → ℕ → ℕ → ℕ → ℕ → Sn → Resources
store_alloc_id p pon_id onu_id entity_id alloc_id sn = record p {
  allocated_alloc_ids =
      Map.insert (alloc_key pon_id onu_id entity_id) (record { onu_sn = sn; alloc_id = alloc_id })
        p.allocated_alloc_ids;
}

unfoldable pub remove_alloc_id : Resources → ℕ → ℕ → ℕ → Resources
remove_alloc_id p pon_id onu_id entity_id = record p {
  allocated_alloc_ids = Map.delete (alloc_key pon_id onu_id entity_id) p.allocated_alloc_ids;
}

unfoldable pub remove_alloc_ids_for_onu_sn : Resources → Sn → Resources
remove_alloc_ids_for_onu_sn p onu_sn = record p {
  allocated_alloc_ids = Map.delete_where (λ v. same_sn onu_sn v.onu_sn) p.allocated_alloc_ids;
}

unfoldable pub remove_all_alloc_ids : Resources → Resources
remove_all_alloc_ids p = record p { allocated_alloc_ids = [] }

unfoldable pub is_alloc_id_allocated : Resources → ℕ → ℕ → ℕ → Option AllocIdVal
is_alloc_id_allocated p pon_id onu_id entity_id =
    Map.lookup (alloc_key pon_id onu_id entity_id) p.allocated_alloc_ids
