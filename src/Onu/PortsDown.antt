-- ===== src/Onu/PortsDown.antt =====
-- The loops of `enter_disabled` over the ports (internal/bbsim/devices/onu.go): with room in the
-- channel they end with every port down.
use g_simulator.Prelude.{
  ℕ, ◌+◌, ◌≤◌, ◌≡◌, refl, Bool, true, false, List, [], ◌∷◌, none, All, length, length-append, arith,
}
use g_simulator.Go.{Chan, buffered, Yields, Yields-bind}
use g_simulator.Fsm.{Engine}
use g_simulator.Oper.{OperState}
use g_simulator.Messages.{Message}
use g_simulator.Omci.EntityId.{generate_uni_port_entity_id}
use g_simulator.Uni.{UniPort, PotsPort, Owner, alarm_of, disable_uni}
use g_simulator.Uni.Switching.{
  IsUniWellformed, Switched, said, is_up, entity_id_of, disable_uni-Switched, disable_pots-Switched,
}
use g_simulator.Onu.Events.{disable_unis, disable_all_pots}

abbrev pub IsDownUni : UniPort → Type 0
IsDownUni u = IsUniWellformed u × (u.oper_state ≡ OperState.down)

abbrev pub IsPotsWellformed : PotsPort → Type 0
IsPotsWellformed p = p.me_id ≡ generate_uni_port_entity_id (p.id + 1)

abbrev pub IsDownPots : PotsPort → Type 0
IsDownPots p = IsPotsWellformed p × (p.oper_state ≡ OperState.down)

-- A channel that holds at most so many messages.
pub record Holds (cap bound : ℕ) (c : Chan Message) : Type 0 where
  pub held : List Message
  pub is_buffered : c ≡ buffered cap held
  pub bounded : length held ≤ bound

length-said :
    (b : Bool) (m : Message) (held : List Message) → length (said b m held) ≤ length held + 1
length-said true m held = omega (arith, length-append held (m ∷ []))
length-said false m held = omega arith

abbrev pub Downed {ℓ} : {P : Type ℓ} → (P → Type 0) → ℕ → ℕ → Chan Message × List P → Type 0
Downed IsDown cap bound (c, ps) = Holds cap bound c × All IsDown ps

module _ (engine : Engine) (o : Owner) (cap : ℕ) where
  pub disable_unis-Downed :
      (us : List UniPort) (held : List Message)
      → length held + length us ≤ cap
      → All IsUniWellformed us
      → Yields
          (Downed IsDownUni cap (length held + length us))
          (disable_unis engine o (buffered cap held) us)
  unfolding disable_unis
  disable_unis-Downed [] held room w =
      (record { held = held; is_buffered = refl; bounded = omega arith }, tt)
  disable_unis-Downed (u ∷ us) held room w =
      let spoken = said (is_up u.oper_state) (alarm_of o (entity_id_of u.id) 1 true) held in
      let grown : length spoken ≤ length held + 1 = length-said _ _ held in
      Yields-bind (Switched none cap spoken u OperState.down) _
        (disable_uni engine o (buffered cap held) u) _
        (disable_uni-Switched engine o cap held (omega arith) u w.0)
        λ (e, c, v) sw. rw sw.1 (
          Yields-bind (Downed IsDownUni cap (length spoken + length us)) _
            (disable_unis engine o (buffered cap spoken) us) _
            (disable_unis-Downed us spoken (omega arith) w.1)
            λ (c', vs) d. (
              record { held = d.0.held; is_buffered = d.0.is_buffered; bounded = omega arith },
              ((sw.4, sw.2), d.1),
            ))

  pub disable_all_pots-Downed :
      (ps : List PotsPort) (held : List Message)
      → length held + length ps ≤ cap
      → All IsPotsWellformed ps
      → Yields
          (Downed IsDownPots cap (length held + length ps))
          (disable_all_pots engine o (buffered cap held) ps)
  unfolding disable_all_pots
  disable_all_pots-Downed [] held room w =
      (record { held = held; is_buffered = refl; bounded = omega arith }, tt)
  disable_all_pots-Downed (p ∷ ps) held room w =
      let spoken = said (is_up p.oper_state) (alarm_of o (entity_id_of p.id) 1 true) held in
      let grown : length spoken ≤ length held + 1 = length-said _ _ held in
      rw (disable_pots-Switched engine o cap held (omega arith) p w.0) (
        Yields-bind (Downed IsDownPots cap (length spoken + length ps)) _
          (disable_all_pots engine o (buffered cap spoken) ps) _
          (disable_all_pots-Downed ps spoken (omega arith) w.1)
          λ (c', qs) d. (
            record { held = d.0.held; is_buffered = d.0.is_buffered; bounded = omega arith },
            ((w.0, refl), d.1),
          ))
