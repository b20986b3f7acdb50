-- ===== src/Olt/PonCycle/Down.antt =====
-- What `enter_disabled` makes of the ONUs and the resources of a PON port (internal/bbsim/devices/pon.go,
-- CreatePonPort).
use g_simulator.Prelude.{
  ℕ, ◌≡◌, ◌≢◌, refl, ◌∙◌, Bool, false, List, [], ◌∷◌, none, some, All, map, arith,
}
use g_simulator.Go.{ok}
use g_simulator.Fsm.{Engine, moves}
use g_simulator.Messages.{Sn, same_sn}
use g_simulator.Pon.{Resources, is_onu_id_allocated, is_gem_port_allocated}
use g_simulator.Onu.Machine.{OnuState, OnuTx, next, onu_event-next}
use g_simulator.Onu.State.{Onu, World}
use g_simulator.Onu.Events.{cleanup_onu_state, enter_onu, fire_onu}
use g_simulator.Onu.Down.{HasRoom}
use g_simulator.Onu.Release.{cleanup-Released}
use g_simulator.Olt.Machines.{PonState}
use g_simulator.Olt.State.{PonPort}
use g_simulator.Olt.Requests.{world_of, on_one, fire}
use g_simulator.Olt.Ports.{on_each, take_down_from, take_down}

-- An ONU that accepts to go down with its PON port, and can be told that it is up again.
pub record IsRunning (o : Onu) : Type 0 where
  pub accepts : next o.internal_state OnuTx.pon_disable ≡ moves OnuState.pon_disabled
  pub has_room : HasRoom 1 o.channel

-- The ONU ids of a PON port are distinct.
abbrev pub Distinct : List Onu → Type 0
Distinct [] = Unit
Distinct (o ∷ os) = All (λ (q : Onu). q.id ≢ o.id) os × Distinct os

abbrev pub down : Onu → Onu
down o = record o { internal_state = OnuState.pon_disabled; flows = []; onu_alarms_info = [] }

abbrev pub freed : Resources → List Onu → Resources
freed p [] = p
freed p (o ∷ os) = freed (cleanup_onu_state (world_of p o)).pon os

abbrev pub taken_down : PonPort → PonPort
taken_down p = record p {
  internal_state = PonState.disabled;
  resources = freed p.resources p.onus;
  onus = map down p.onus;
}

module _ (engine : Engine) (stream : ℕ) (is_mock : Bool) where
  takes_down :
      (s : OnuState) (w : World)
      → next s OnuTx.pon_disable ≡ moves OnuState.pon_disabled
      → take_down_from engine stream is_mock s w ≡ fire engine stream is_mock OnuTx.pon_disable w
  unfolding take_down_from
  takes_down OnuState.initialized w h = absurd (cc)
  takes_down OnuState.disabled w h = absurd (cc)
  takes_down _ w h = refl

  fired_down :
      (p : Resources) (o : Onu)
      → next o.internal_state OnuTx.pon_disable ≡ moves OnuState.pon_disabled
      → fire engine stream is_mock OnuTx.pon_disable (world_of p o)
        ≡ ok (record (world_of p (down o)) { pon = (cleanup_onu_state (world_of p o)).pon })
  unfolding fire fire_onu enter_onu cleanup_onu_state
  fired_down p o h = ground (arith, onu_event-next engine o.internal_state OnuTx.pon_disable)

  pub take_all :
      (p : Resources) (os : List Onu)
      → All IsRunning os
      → on_each (take_down engine stream is_mock) p os ≡ ok (freed p os, map down os, [])
  unfolding on_each on_one take_down
  take_all p [] h = refl
  take_all p (o ∷ os) h =
      rw (takes_down o.internal_state (world_of p o) h.0.accepts ∙ fired_down p o h.0.accepts)
        (rw (take_all (cleanup_onu_state (world_of p o)).pon os h.1) refl)

-- What no ONU has stays free, and the ids of the ONUs become free.
freed-stays :
    (p : Resources) (os : List Onu) (i : ℕ)
    → is_onu_id_allocated p i ≡ none
    → is_onu_id_allocated (freed p os) i ≡ none
freed-stays p [] i h = h
freed-stays p (o ∷ os) i h =
    freed-stays (cleanup_onu_state (world_of p o)).pon os i
      (ground (arith, (cleanup-Released (world_of p o)).ids i))

pub freed-all :
    (p : Resources) (os : List Onu) → All (λ o. is_onu_id_allocated (freed p os) o.id ≡ none) os
freed-all p [] = tt
freed-all p (o ∷ os) = (
  freed-stays (cleanup_onu_state (world_of p o)).pon os o.id
      (ground (arith, (cleanup-Released (world_of p o)).ids o.id)),
  freed-all (cleanup_onu_state (world_of p o)).pon os,
)

-- A GEM port that is left is of none of the ONUs, and was there.
pub freed-gem :
    (p : Resources) (os : List Onu) (g : ℕ) (sn : Sn)
    → is_gem_port_allocated (freed p os) g ≡ some sn
    → (is_gem_port_allocated p g ≡ some sn)
      × All (λ (o : Onu). same_sn sn o.serial_number ≡ false) os
freed-gem p [] g sn h = (h, tt)
freed-gem p (o ∷ os) g sn h =
    let (there, others) = freed-gem (cleanup_onu_state (world_of p o)).pon os g sn h in
    (
      ground (arith, (cleanup-Released (world_of p o)).gem_ports g),
      (ground (arith, (cleanup-Released (world_of p o)).gem_ports g), others),
    )
