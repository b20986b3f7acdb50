-- ===== src/Onu/Messages/Stops.antt =====
-- A packet for a port number that the ONU does not know (internal/bbsim/devices/onu.go,
-- ProcessOnuMessages, the case OnuPacketOut).
use g_simulator.Onu.Messages.{
  handle_onu_packet_out, handle_message, receive, returned, process_messages,
}
use g_simulator.Onu.Flows.{find_uni_by_port_no}
use g_simulator.Onu.Messages.Sending.{Running}
use g_simulator.Omci.Alarms.{Notifier}
use g_simulator.Omci.Responses.{Library}
use g_simulator.Fsm.{Engine}
use g_simulator.Onu.Events.{tell}
use g_simulator.Onu.State.{World}
use g_simulator.Messages.{onu_packet_out, OnuPacket, Flow, Message}
use g_simulator.Prelude.{
  length-append, ltb, Bool-cases, inl, inr, Bool-cases, inl, inr, length-append, ltb, ℕ, suc, ◌+◌,
  ◌≤◌, ◌<◌, ◌≡◌, refl, Bool, List, [], ◌∷◌, ◌++◌, Option, none, length, arith,
}
use g_simulator.Go.{Result, ok, blocks, buffered, ◌>>=◌, send}

-- The messages are put on the channel one after the other.
abbrev pub tell_all : List Message → World → Result World
tell_all [] w = ok w
tell_all (m ∷ ms) w = do v ← tell m w; tell_all ms v

tell_all-blocks :
    (cap : ℕ) (ms held : List Message) (w : World)
    → w.onu.channel ≡ buffered cap held
    → length held ≤ cap
    → cap < length held + length ms
    → tell_all ms w ≡ blocks
unfolding tell send
tell_all-blocks cap [] held w e h k = absurd (ground arith)
tell_all-blocks cap (m ∷ ms) held w e h k = elim (Bool-cases (ltb (length held) cap)) [
  | inl t ↦
      let v = record w { onu = record w.onu { channel = buffered cap (held ++ m ∷ []) } } in
      ground
        (arith, e, t, length-append held (m ∷ []), tell_all-blocks cap ms (held ++ m ∷ []) v refl)
  | inr t ↦ ground (arith, e, t)
]

-- The goroutine after the packet: the rest of the messages is still on the channel.
abbrev pub left_with : ℕ → List Message → Running → Running
left_with cap rest r = record r {
  world = record r.world { onu = record r.world.onu { channel = buffered cap rest } };
}

module _ (engine : Engine) (stream : ℕ) (is_mock : Bool) (lib : Library) (publish_events : Bool)
    (delivers : World → Bool) (notifier : Notifier) (client : Option (Flow → Bool)) where
  -- A packet for a port number that no UNI of the ONU has ends the goroutine, whatever messages still
  -- wait on the channel; these stay there, and once the messages put on it after that exceed its
  -- capacity, the one who puts them there waits for ever.
  pub process_messages-stops :
      (p : OnuPacket) (rest : List Message) (cap n : ℕ) (r : Running)
      → r.world.onu.channel ≡ buffered cap (onu_packet_out p ∷ rest)
      → find_uni_by_port_no p.port_no r.world.onu ≡ none
      → length rest ≤ cap
      → (process_messages engine stream is_mock lib publish_events delivers notifier client
            (suc n)
            r
          ≡ ok (returned, left_with cap rest r))
        × ((ms : List Message)
            → cap < length rest + length ms
            → tell_all ms (left_with cap rest r).world ≡ blocks)
  unfolding process_messages receive handle_message handle_onu_packet_out find_uni_by_port_no
  process_messages-stops p rest cap n r e absent fits = (
    ground (arith, e, absent),
    λ ms over. tell_all-blocks cap ms rest (left_with cap rest r).world refl fits over,
  )
