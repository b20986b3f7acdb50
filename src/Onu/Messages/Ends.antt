-- ===== src/Onu/Messages/Ends.antt =====
-- How the goroutine of an ONU ends once the channel is closed (internal/bbsim/devices/onu.go,
-- ProcessOnuMessages).
use g_simulator.Onu.State.{Onu}
use g_simulator.Onu.Messages.Sending.{Running}
use g_simulator.Onu.Messages.{channel_closed, returned, End, returns, continues, Turn}
use g_simulator.Prelude.{◌≡◌, ◌⊎◌, []}
use g_simulator.Go.{closed, StaysClosed}

abbrev running_of : Turn → Running
running_of (continues r) = r
running_of (returns r) = r

-- After the turn a channel that was closed is as it was.
abbrev KeepsClosed : Running → Turn → Type 0
KeepsClosed r t = StaysClosed r.world.onu.channel (running_of t).world.onu.channel

-- The goroutine left a closed and empty channel, or returned.
abbrev pub HasEnded : End × Running → Type 0
HasEnded (end, r) = (end ≡ returned) ⊎ ((end ≡ channel_closed) × (r.world.onu.channel ≡ closed []))
