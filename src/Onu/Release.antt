-- ===== src/Onu/Release.antt =====
-- An ONU that goes down gives back what the PON port lent it, and nothing of the other ONUs
-- (internal/bbsim/devices/onu.go, cleanupOnuState and the callbacks that call it).
use g_simulator.Prelude.{ℕ, ◌≡◌, Bool, none, ◌==◌, if◌then◌else◌, arith}
use g_simulator.Prelude.Map.{keep_unless}
use g_simulator.Go.{ok}
use g_simulator.Fsm.{Engine}
use g_simulator.Messages.{Sn, same_sn}
use g_simulator.Pon.{
  Resources, is_onu_id_allocated, is_gem_port_allocated, is_alloc_id_allocated, remove_onu_id,
  remove_alloc_ids_for_onu_sn, remove_gem_port_by_sn,
}
use g_simulator.Pon.Ownership.{
  gem-remove_gem_port_by_sn, alloc-remove_alloc_ids_for_onu_sn, onu_id-remove_onu_id,
}
use g_simulator.Onu.Machine.{OnuState, OnuTx, onu_event-next}
use g_simulator.Onu.State.{World}
use g_simulator.Onu.Events.{
  cleanup_onu_state, tell, fire_oper, stopped, ports_down, enter_disabled, fire_onu,
}

-- `q` is `p` less the ONU id `id` and all that is under the serial number `sn`.
pub record Released (sn : Sn) (id : ℕ) (p q : Resources) : Type 0 where
  pub ids : (i : ℕ) → is_onu_id_allocated q i ≡ (if id == i then none else is_onu_id_allocated p i)
  pub gem_ports :
      (g : ℕ)
      → is_gem_port_allocated q g ≡ keep_unless (λ s. same_sn s sn) (is_gem_port_allocated p g)
  pub alloc_ids :
      (pon onu entity : ℕ)
      → is_alloc_id_allocated q pon onu entity
        ≡ keep_unless (λ v. same_sn sn v.onu_sn) (is_alloc_id_allocated p pon onu entity)

pub cleanup-Released :
    (w : World) → Released w.onu.serial_number w.onu.id w.pon (cleanup_onu_state w).pon
unfolding cleanup_onu_state remove_onu_id remove_alloc_ids_for_onu_sn remove_gem_port_by_sn
    is_onu_id_allocated is_gem_port_allocated is_alloc_id_allocated
cleanup-Released w = record {
  ids = onu_id-remove_onu_id w.pon w.onu.id;
  gem_ports = gem-remove_gem_port_by_sn w.pon w.onu.serial_number;
  alloc_ids = alloc-remove_alloc_ids_for_onu_sn w.pon w.onu.serial_number;
}

-- The two events that take an ONU down.
pub data Downs : OnuTx → Type 0 where
  disables : Downs OnuTx.disable
  pon_disables : Downs OnuTx.pon_disable

pub cleanup-id_free : (w : World) → is_onu_id_allocated (cleanup_onu_state w).pon w.onu.id ≡ none
cleanup-id_free w = ground (arith, (cleanup-Released w).ids w.onu.id)

module _ (engine : Engine) (stream : ℕ) (is_mock : Bool) where
  pon-enter_disabled :
      (w w' : World)
      → enter_disabled engine stream is_mock w ≡ ok w'
      → w'.pon ≡ (cleanup_onu_state w).pon
  unfolding enter_disabled stopped ports_down fire_oper tell
  pon-enter_disabled w w' h = ground arith

  pon-fire_onu :
      (tx : OnuTx) (w w' : World)
      → Downs tx
      → fire_onu engine stream is_mock tx w ≡ ok (none, w')
      → w'.pon ≡ (cleanup_onu_state w).pon
  unfolding fire_onu cleanup_onu_state
  pon-fire_onu tx w w' disables h = ground (
    arith,
    onu_event-next engine w.onu.internal_state OnuTx.disable,
    pon-enter_disabled (record w { onu = record w.onu { internal_state = OnuState.disabled } }) w',
  )
  pon-fire_onu tx w w' pon_disables h =
      ground (arith, onu_event-next engine w.onu.internal_state OnuTx.pon_disable)

  -- When an ONU accepts the event `disable` or `pon_disable`, its ONU id is free again, exactly the
  -- GEM ports and alloc ids under its serial number are gone, and all others are as before.
  pub fire_onu-Released :
      (tx : OnuTx) (w w' : World)
      → Downs tx
      → fire_onu engine stream is_mock tx w ≡ ok (none, w')
      → Released w.onu.serial_number w.onu.id w.pon w'.pon
  fire_onu-Released tx w w' d h = rw (pon-fire_onu tx w w' d h) (cleanup-Released w)
