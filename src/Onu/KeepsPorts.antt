-- ===== src/Onu/KeepsPorts.antt =====
-- Disabling the ports of an ONU never panics while the ONU's channel is open
-- (internal/bbsim/devices/onu.go, CreateONU).
use g_simulator.Prelude.{List, [], ◌∷◌, Option, All, arith}
use g_simulator.Go.{Safely, Safely-bind, Chan, buffered, send}
use g_simulator.Fsm.{Engine, EventError}
use g_simulator.Oper.{OperState, OperTx, oper_event-next}
use g_simulator.Messages.{Message}
use g_simulator.Uni.{UniPort, PotsPort, Owner, disable_uni, disable_pots}
use g_simulator.Onu.Events.{disable_unis, disable_all_pots}
use g_simulator.Onu.PortsDown.{IsPotsWellformed}
use g_simulator.Uni.Switching.{
  IsUniWellformed, FitsPort, disable-FitsPort, for_services-Yields, entity_id-to_uint16,
}
use g_simulator.Service

abbrev pub IsBuffered : Chan Message → Type 0
IsBuffered (buffered cap held) = Unit
IsBuffered _ = ⊥

module _ (engine : Engine) (o : Owner) where
  disable_uni-Safely :
      (c : Chan Message) (u : UniPort)
      → IsBuffered c
      → IsUniWellformed u
      → Safely
          (λ (x : Option EventError × Chan Message × UniPort). IsBuffered x.1 × IsUniWellformed x.2)
          (disable_uni engine o c u)
  unfolding disable_uni send
  disable_uni-Safely c u b w = ground (
    arith,
    oper_event-next engine OperState.up OperTx.disable,
    entity_id-to_uint16 u.id,
    for_services-Yields (FitsPort OperState.up) (FitsPort OperState.down) (Service.disable engine)
        u.services (disable-FitsPort engine),
  )

  disable_pots-Safely :
      (c : Chan Message) (p : PotsPort)
      → IsBuffered c
      → IsPotsWellformed p
      → Safely
          (λ (x : Option EventError × Chan Message × PotsPort).
            IsBuffered x.1 × IsPotsWellformed x.2)
          (disable_pots engine o c p)
  unfolding disable_pots send
  disable_pots-Safely c p b w =
      ground (arith, oper_event-next engine OperState.up OperTx.disable, entity_id-to_uint16 p.id)

  pub disable_unis-Safely :
      (us : List UniPort) (c : Chan Message)
      → IsBuffered c
      → All IsUniWellformed us
      → Safely
          (λ (x : Chan Message × List UniPort). IsBuffered x.0 × All IsUniWellformed x.1)
          (disable_unis engine o c us)
  unfolding disable_unis
  disable_unis-Safely [] c b w = (b, tt)
  disable_unis-Safely (u ∷ us) c b w =
      Safely-bind _ _ (disable_uni engine o c u) _ (disable_uni-Safely c u b w.0) λ (e, d, v) h.
        Safely-bind _ _ (disable_unis engine o d us) _ (disable_unis-Safely us d h.0 w.1)
          λ (d', vs) k. (k.0, (h.1, k.1))

  pub disable_all_pots-Safely :
      (ps : List PotsPort) (c : Chan Message)
      → IsBuffered c
      → All IsPotsWellformed ps
      → Safely
          (λ (x : Chan Message × List PotsPort). IsBuffered x.0 × All IsPotsWellformed x.1)
          (disable_all_pots engine o c ps)
  unfolding disable_all_pots
  disable_all_pots-Safely [] c b w = (b, tt)
  disable_all_pots-Safely (p ∷ ps) c b w =
      Safely-bind _ _ (disable_pots engine o c p) _ (disable_pots-Safely c p b w.0) λ (e, d, q) h.
        Safely-bind _ _ (disable_all_pots engine o d ps) _ (disable_all_pots-Safely ps d h.0 w.1)
          λ (d', qs) k. (k.0, (h.1, k.1))
