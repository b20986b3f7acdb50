-- ===== src/Uni/Closed.antt =====
-- Ports whose ONU has closed its channel (internal/bbsim/devices/uni_port.go and pots_port.go).
use g_simulator.Prelude.{arith}
use g_simulator.Go.{Chan, send, Ensures, StaysClosed, StaysClosed_intro}
use g_simulator.Fsm.{Engine}
use g_simulator.Messages.{Message}
use g_simulator.Uni.{UniPort, PotsPort, Owner, enable_uni, disable_uni, enable_pots, disable_pots}

module _ (engine : Engine) (o : Owner) where
  pub enable_uni-StaysClosed :
      (u : UniPort) (c : Chan Message) → Ensures (λ r. StaysClosed c r.1) (enable_uni engine o c u)
  unfolding enable_uni send
  enable_uni-StaysClosed u =
      StaysClosed_intro (λ r. r.1) (λ c. enable_uni engine o c u) λ held. ground arith

  pub disable_uni-StaysClosed :
      (u : UniPort) (c : Chan Message) → Ensures (λ r. StaysClosed c r.1) (disable_uni engine o c u)
  unfolding disable_uni send
  disable_uni-StaysClosed u =
      StaysClosed_intro (λ r. r.1) (λ c. disable_uni engine o c u) λ held. ground arith

  pub enable_pots-StaysClosed :
      (p : PotsPort) (c : Chan Message)
      → Ensures (λ r. StaysClosed c r.1) (enable_pots engine o c p)
  unfolding enable_pots send
  enable_pots-StaysClosed p =
      StaysClosed_intro (λ r. r.1) (λ c. enable_pots engine o c p) λ held. ground arith

  pub disable_pots-StaysClosed :
      (p : PotsPort) (c : Chan Message)
      → Ensures (λ r. StaysClosed c r.1) (disable_pots engine o c p)
  unfolding disable_pots send
  disable_pots-StaysClosed p =
      StaysClosed_intro (λ r. r.1) (λ c. disable_pots engine o c p) λ held. ground arith
