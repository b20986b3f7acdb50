-- ===== src/Olt/PonCycle/Back.antt =====
-- What `enter_enabled` makes of the ONUs that went down with their PON port (internal/bbsim/devices/pon.go,
-- CreatePonPort).
use g_simulator.Prelude.{
  ℕ, ◌≡◌, ◌≢◌, refl, ap, ◌∙◌, Bool, List, [], ◌∷◌, none, some, All, map, arith,
}
use g_simulator.Go.{ok, Yields, Yields-bind}
use g_simulator.Fsm.{Engine}
use g_simulator.Messages.{Sn}
use g_simulator.Pon.{Resources, is_onu_id_allocated, is_gem_port_allocated, store_onu_id}
use g_simulator.Pon.Ownership.{onu_id-store_onu_id}
use g_simulator.Onu.Machine.{OnuState}
use g_simulator.Onu.State.{Onu}
use g_simulator.Onu.Down.{HasRoom}
use g_simulator.Onu.Enabling.{announced, enable_free}
use g_simulator.Olt.Requests.{Changed, world_of, on_one, fire}
use g_simulator.Olt.Ports.{on_each, bring_back_from, bring_back}
use g_simulator.Olt.PonCycle.Down.{IsRunning, Distinct, down}

-- What bringing back the ONUs of a list leaves.
pub record IsBack (os : List Onu) (r : Resources) (c : Changed) : Type 0 where
  pub enabled : All (λ (o : Onu). o.internal_state ≡ OnuState.enabled) c.1
  pub owned : All (λ (o : Onu). is_onu_id_allocated c.0 o.id ≡ some o.serial_number) os
  pub others :
      (i : ℕ) → All (λ (o : Onu). o.id ≢ i) os → is_onu_id_allocated c.0 i ≡ is_onu_id_allocated r i
  pub ids : map (λ (o : Onu). o.id) c.1 ≡ map (λ (o : Onu). o.id) os
  pub gems : (g : ℕ) → is_gem_port_allocated c.0 g ≡ is_gem_port_allocated r g

still_free :
    (r : Resources) (o : Onu) (os : List Onu)
    → All (λ (q : Onu). q.id ≢ o.id) os
    → All (λ (q : Onu). is_onu_id_allocated r q.id ≡ none) os
    → All (λ (q : Onu). is_onu_id_allocated (store_onu_id r o.id o.serial_number) q.id ≡ none) os
still_free r o [] d h = tt
still_free r o (q ∷ os) d h = (
  ground (arith, onu_id-store_onu_id r o.id o.serial_number q.id, d.0),
  still_free r o os d.1 h.1,
)

gem-store_onu_id :
    (r : Resources) (i : ℕ) (sn : Sn) (g : ℕ)
    → is_gem_port_allocated (store_onu_id r i sn) g ≡ is_gem_port_allocated r g
unfolding store_onu_id is_gem_port_allocated
gem-store_onu_id r i sn g = refl

module _ (engine : Engine) (stream : ℕ) (is_mock : Bool) where
  brought_back :
      (r : Resources) (o : Onu) (k : HasRoom 1 o.channel)
      → is_onu_id_allocated r o.id ≡ none
      → bring_back engine stream is_mock (world_of r (down o))
        ≡ ok (announced (world_of r (down o)) k.cap k.held)
  unfolding bring_back bring_back_from fire
  brought_back r o k h =
      rw
        (enable_free engine stream is_mock (world_of r (down o)) k.cap k.held refl k.is_buffered
          (omega (arith, k.room)) h)
        refl

  pub bring_all :
      (r : Resources) (os : List Onu)
      → All IsRunning os
      → Distinct os
      → All (λ (o : Onu). is_onu_id_allocated r o.id ≡ none) os
      → Yields (IsBack os r) (on_each (bring_back engine stream is_mock) r (map down os))
  unfolding on_each on_one
  bring_all r [] h d f = record {
    enabled = tt;
    owned = tt;
    others = λ i a. refl;
    ids = refl;
    gems = λ g. refl;
  }
  bring_all r (o ∷ os) h d f = rw (brought_back r o h.0.has_room f.0) (
      Yields-bind (IsBack os r1) (IsBack (o ∷ os) r) _ _
        (bring_all r1 os h.1 d.1 (still_free r o os d.0 f.1))
        λ c b. record {
          enabled = (refl, b.enabled);
          owned = (
            b.others o.id d.0 ∙ ground (arith, onu_id-store_onu_id r o.id o.serial_number o.id),
            b.owned,
          );
          others = λ i a.
              b.others i a.1 ∙ ground (arith, onu_id-store_onu_id r o.id o.serial_number i, a.0);
          ids = ap (λ l. o.id ∷ l) b.ids;
          gems = λ g. b.gems g ∙ gem-store_onu_id r o.id o.serial_number g;
        })
    where
      r1 : Resources
      r1 = store_onu_id r o.id o.serial_number
