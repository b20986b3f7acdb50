-- ===== src/Onu/Omci/SetsSteady.antt =====
-- Locking and unlocking a port over OMCI leaves a closed channel as it is
-- (internal/bbsim/devices/onu.go, handleOmciRequest, the case SetRequestType).
use g_simulator.Prelude.{
  ℕ, refl, Bool, true, false, List, [], ◌∷◌, Option, none, some, ◌==◌, if◌then◌else◌,
}
use g_simulator.Go.{
  Result, ok, Chan, ◌>>=◌, Ensures, Ensures-bind, Ensures-if, Ensures-any, StaysClosed,
}
use g_simulator.Fsm.{Engine}
use g_simulator.Messages.{Message}
use g_simulator.Omci.EntityId.{from_uint16, equals}
use g_simulator.Omci.Packet.{OmciMessage, SetRequest, AttributeName}
use g_simulator.Omci.Responses.{Library}
use g_simulator.Uni.{UniPort, PotsPort, enable_uni, disable_uni, enable_pots, disable_pots}
use g_simulator.Uni.Closed.{
  enable_uni-StaysClosed, disable_uni-StaysClosed, enable_pots-StaysClosed,
  disable_pots-StaysClosed,
}
use g_simulator.Onu.State.{Onu, World, owner_of}
use g_simulator.Onu.Omci.Requests.{
  as_uint8, at_first, switch_uni, switch_pots, set_pptp_uni, set_pptp_pots,
}
use g_simulator.Onu.Omci.Steady.{Steady, Steady-refl}

-- The channel that comes with a port found.
abbrev KeepsChannel {ℓ} : {P : Type ℓ} → Chan Message → Option (Chan Message × P) → Type 0
KeepsChannel c none = Unit
KeepsChannel c (some (d, _)) = StaysClosed c d

module _ (engine : Engine) (stream : ℕ) (lib : Library) (msg : OmciMessage) where
  switch_uni-StaysClosed :
      (o : Onu) (s : ℕ) (c : Chan Message) (u : UniPort)
      → Ensures (λ x. StaysClosed c x.0) (switch_uni lib msg engine stream o s c u)
  unfolding switch_uni
  switch_uni-StaysClosed o s c u =
      Ensures-bind (λ r. StaysClosed c r.1) (λ x. StaysClosed c x.0)
        (if s == 1
          then disable_uni engine (owner_of stream o) c u
          else enable_uni engine (owner_of stream o) c u)
        _
        (Ensures-if _ (s == 1) _ _ (λ _. disable_uni-StaysClosed engine _ u c)
          (λ _. enable_uni-StaysClosed engine _ u c))
        λ r h. h

  switch_pots-StaysClosed :
      (o : Onu) (s : ℕ) (c : Chan Message) (p : PotsPort)
      → Ensures (λ x. StaysClosed c x.0) (switch_pots lib msg engine stream o s c p)
  unfolding switch_pots
  switch_pots-StaysClosed o s c p =
      Ensures-bind (λ r. StaysClosed c r.1) (λ x. StaysClosed c x.0)
        (if s == 1
          then disable_pots engine (owner_of stream o) c p
          else enable_pots engine (owner_of stream o) c p)
        _
        (Ensures-if _ (s == 1) _ _ (λ _. disable_pots-StaysClosed engine _ p c)
          (λ _. enable_pots-StaysClosed engine _ p c))
        λ r h. h

  passed_on :
      {P : Type 0} (c : Chan Message) (p : P) (found : Option (Chan Message × List P))
      → KeepsChannel c found
      → Ensures
          (KeepsChannel c)
          (elim found [ none ↦ ok none | some (d, qs) ↦ ok (some (d, p ∷ qs)) ])
  passed_on c p none h = tt
  passed_on c p (some (d, qs)) h = h

  at_first-KeepsChannel :
      {P : Type 0} (test : P → Bool) (f : Chan Message → P → Result (Chan Message × P))
      → ((c : Chan Message) (p : P) → Ensures (λ x. StaysClosed c x.0) (f c p))
      → (c : Chan Message) (ps : List P)
      → Ensures (KeepsChannel c) (at_first lib msg engine stream test f c ps)
  unfolding at_first
  at_first-KeepsChannel test f k c [] = tt
  at_first-KeepsChannel test f k c (p ∷ ps) =
      Ensures-if (KeepsChannel c) (test p) _ _
        (λ _. Ensures-bind (λ x. StaysClosed c x.0) (KeepsChannel c) (f c p) _ (k c p) λ x h. h)
        (λ _.
          Ensures-bind (KeepsChannel c) (KeepsChannel c)
            (at_first lib msg engine stream test f c ps) _ (at_first-KeepsChannel test f k c ps)
            λ found h. passed_on c p found h)

  switched :
      {P : Type 0} (w : World) (set : Chan Message → P → World)
      → ((c : Chan Message) (p : P) → StaysClosed w.onu.channel c → Steady w (set c p))
      → (found : Option (Chan Message × P)) → KeepsChannel w.onu.channel found
      → Ensures {A = Bool × World}
          (λ x. Steady w x.1)
          (elim found [ none ↦ ok (false, w) | some (c, p) ↦ ok (true, set c p) ])
  switched w set k none h = Steady-refl w
  switched w set k (some (c, p)) h = k c p h

  pub set_pptp_uni-Steady :
      (r : SetRequest) (w : World)
      → Ensures (λ x. Steady w x.1) (set_pptp_uni lib msg engine stream r w)
  unfolding set_pptp_uni
  set_pptp_uni-Steady r w =
      let state = as_uint8 (r.attributes AttributeName.administrative_state) in
      let test : UniPort → Bool = λ p. equals p.me_id (from_uint16 r.base.entity_instance) in
      let f : Chan Message → UniPort → Result (Chan Message × UniPort) =
        λ c p. state >>= λ s. switch_uni lib msg engine stream w.onu s c p in
      Ensures-bind (KeepsChannel w.onu.channel) (λ x. Steady w x.1)
        (at_first lib msg engine stream test f w.onu.channel w.onu.uni_ports) _
        (at_first-KeepsChannel test f
          (λ c p.
            Ensures-bind (λ _. Unit {0}) (λ x. StaysClosed c x.0) state _ (Ensures-any state)
              λ s _. switch_uni-StaysClosed w.onu s c p)
          w.onu.channel w.onu.uni_ports)
        (switched w (λ c ps. record w { onu = record w.onu { channel = c; uni_ports = ps } })
          λ c ps h. (refl, refl, h))

  pub set_pptp_pots-Steady :
      (r : SetRequest) (w : World)
      → Ensures (λ x. Steady w x.1) (set_pptp_pots lib msg engine stream r w)
  unfolding set_pptp_pots
  set_pptp_pots-Steady r w =
      let state = as_uint8 (r.attributes AttributeName.administrative_state) in
      let test : PotsPort → Bool = λ p. equals p.me_id (from_uint16 r.base.entity_instance) in
      let f : Chan Message → PotsPort → Result (Chan Message × PotsPort) =
        λ c p. state >>= λ s. switch_pots lib msg engine stream w.onu s c p in
      Ensures-bind (KeepsChannel w.onu.channel) (λ x. Steady w x.1)
        (at_first lib msg engine stream test f w.onu.channel w.onu.pots_ports) _
        (at_first-KeepsChannel test f
          (λ c p.
            Ensures-bind (λ _. Unit {0}) (λ x. StaysClosed c x.0) state _ (Ensures-any state)
              λ s _. switch_pots-StaysClosed w.onu s c p)
          w.onu.channel w.onu.pots_ports)
        (switched w (λ c ps. record w { onu = record w.onu { channel = c; pots_ports = ps } })
          λ c ps h. (refl, refl, h))
