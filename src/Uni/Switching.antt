-- ===== src/Uni/Switching.antt =====
-- Enabling and disabling a port (internal/bbsim/devices/uni_port.go and pots_port.go): the alarm, the
-- state and the services move together.
use g_simulator.Prelude.{
  ℕ, ◌+◌, ◌<◌, ◌≡◌, ◌≢◌, Bool, true, false, not, List, [], ◌∷◌, ◌++◌, Option, none, some, All,
  length, if◌then◌else◌, u8, arith,
}
use g_simulator.Go.{Result, ok, Chan, buffered, send, close, Yields, Yields-bind}
use g_simulator.Fsm.{Engine, EventError, invalid_event}
use g_simulator.Oper.{OperState, OperTx, oper_event-next}
use g_simulator.Messages.{Message}
use g_simulator.Omci.EntityId.{to_uint16, generate_uni_port_entity_id}
use g_simulator.Service.Machines.Internal.{ServiceState, ServiceTx, service_event-next}
use g_simulator.Service.{Service}
use g_simulator.Service
use g_simulator.Service.Wellformed.{IsWellformed}
use g_simulator.Uni.{
  UniPort, PotsPort, Owner, alarm_of, for_services, enable_uni, disable_uni, disable_pots,
}

-- A service fits its port: it is initialized exactly if the port is up.
abbrev pub FitsPort : OperState → Service → Type 0
FitsPort OperState.up s = IsWellformed s × (s.internal_state ≡ ServiceState.initialized)
FitsPort OperState.down s = IsWellformed s × (s.internal_state ≢ ServiceState.initialized)

pub record IsUniWellformed (u : UniPort) : Type 0 where
  pub has_entity_id : u.me_id ≡ generate_uni_port_entity_id (u.id + 1)
  pub services_fit : All (FitsPort u.oper_state) u.services

-- The entity id that the port reports.
abbrev pub entity_id_of : ℕ → ℕ
entity_id_of id = 256 + u8 (id + 1)

pub entity_id-to_uint16 :
    (id : ℕ) → to_uint16 (generate_uni_port_entity_id (id + 1)) ≡ ok (entity_id_of id)
unfolding to_uint16 generate_uni_port_entity_id
entity_id-to_uint16 id = ground arith

module _ (engine : Engine) where
  initialize-FitsPort :
      (stream : ℕ) (s : Service)
      → FitsPort OperState.down s
      → Yields (FitsPort OperState.up) (Service.initialize engine stream s)
  unfolding Service.initialize
  initialize-FitsPort stream s f =
      ground (arith, service_event-next engine s.internal_state ServiceTx.initialize)

  pub disable-FitsPort :
      (s : Service)
      → FitsPort OperState.up s
      → Yields (FitsPort OperState.down) (Service.disable engine s)
  unfolding Service.disable close
  disable-FitsPort s f =
      ground (arith, service_event-next engine s.internal_state ServiceTx.disable)

pub for_services-Yields :
    (P Q : Service → Type 0) (f : Service → Result Service) (l : List Service)
    → ((s : Service) → P s → Yields Q (f s))
    → All P l
    → Yields (All Q) (for_services f l)
unfolding for_services
for_services-Yields P Q f [] k h = tt
for_services-Yields P Q f (s ∷ l) k h = Yields-bind Q (All Q) (f s) _ (k s h.0) λ t q.
    Yields-bind (All Q) (All Q) (for_services f l) _ (for_services-Yields P Q f l k h.1)
      λ ts qs. (q, qs)

-- What a channel holds after the port has spoken.
abbrev pub said : Bool → Message → List Message → List Message
said true m held = held ++ m ∷ []
said false m held = held

abbrev pub is_up : OperState → Bool
is_up OperState.up = true
is_up OperState.down = false

-- The port is in this state and well-formed, and the channel holds this.
abbrev pub Switched :
    Option EventError
    → ℕ
    → List Message
    → UniPort
    → OperState
    → Option EventError × Chan Message × UniPort
    → Type 0
Switched err cap held u state (e, c, v) =
    (e ≡ err) × (c ≡ buffered cap held) × (v.oper_state ≡ state) × (v.id ≡ u.id) × IsUniWellformed v

module _ (engine : Engine) (o : Owner) (cap : ℕ) (held : List Message)
    (room : length held < cap) where
  -- Disabling a well-formed UNI succeeds, if the channel has room, and leaves it down and well-formed,
  -- none of its services initialized; a port that was up raises one alarm, a port that was down says
  -- nothing.
  pub disable_uni-Switched :
      (u : UniPort)
      → IsUniWellformed u
      → Yields
          (Switched none cap
            (said (is_up u.oper_state) (alarm_of o (entity_id_of u.id) 1 true) held)
            u
            OperState.down)
          (disable_uni engine o (buffered cap held) u)
  unfolding disable_uni send
  disable_uni-Switched u w = ground (
    arith,
    oper_event-next engine OperState.up OperTx.disable,
    entity_id-to_uint16 u.id,
    for_services-Yields (FitsPort OperState.up) (FitsPort OperState.down) (Service.disable engine)
        u.services (disable-FitsPort engine),
  )

  -- Enabling a well-formed UNI, if the channel has room, leaves it up, its services initialized; a port that was down clears
  -- its alarm once, a port that was up is refused with an error, stays up and says nothing.
  pub enable_uni-Switched :
      (u : UniPort)
      → IsUniWellformed u
      → Yields
          (Switched
            (if is_up u.oper_state then some invalid_event else none)
            cap
            (said (not (is_up u.oper_state)) (alarm_of o (entity_id_of u.id) 0 false) held)
            u
            OperState.up)
          (enable_uni engine o (buffered cap held) u)
  unfolding enable_uni send
  enable_uni-Switched u w = ground (
    arith,
    oper_event-next engine u.oper_state OperTx.enable,
    entity_id-to_uint16 u.id,
    for_services-Yields (FitsPort OperState.down) (FitsPort OperState.up)
        (Service.initialize engine o.openolt_stream) u.services
        (initialize-FitsPort engine o.openolt_stream),
  )

  -- Disabling a POTS port with the entity id of its number succeeds, if the channel has room, and leaves
  -- it down, the rest unchanged; a port that was up raises one alarm, a port that was down says nothing.
  pub disable_pots-Switched :
      (p : PotsPort)
      → p.me_id ≡ generate_uni_port_entity_id (p.id + 1)
      → disable_pots engine o (buffered cap held) p
        ≡ ok (
          none,
          buffered cap (said (is_up p.oper_state) (alarm_of o (entity_id_of p.id) 1 true) held),
          record p { oper_state = OperState.down },
        )
  unfolding disable_pots send
  disable_pots-Switched p w =
      ground (arith, oper_event-next engine OperState.up OperTx.disable, entity_id-to_uint16 p.id)
