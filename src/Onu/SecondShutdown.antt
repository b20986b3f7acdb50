-- ===== src/Onu/SecondShutdown.antt =====
-- Shutting down an ONU that is down (internal/bbsim/devices/onu.go, HandleShutdownONU).
use Prim.Native.String.{String}
use g_simulator.Prelude.{ℕ, ◌≡◌, Bool, true, [], ◌∷◌, ◌++◌, Option, none, arith}
use g_simulator.Go.{ok, panics, send, ensured}
use g_simulator.Fsm.{Engine, EventError}
use g_simulator.Alarms.{AlarmType}
use g_simulator.Onu.Machine.{OnuTx}
use g_simulator.Onu.State.{World}
use g_simulator.Onu.Events.{tell, fire_onu}
use g_simulator.Onu.Power.{send_omci_alarm_notification_msg, handle_shutdown_onu}
use g_simulator.Onu.Reboot.{Listens, los_indication, simulate_los, simulate_dying_gasp}
use g_simulator.Onu.Flows.Faults.{is_closed, fire_onu-disable-IsShut}

module _ (engine : Engine) (stream : ℕ) (is_mock : Bool) (atoi : String → Option ℕ) where
  closed-panics :
      (w : World) (l : Listens w.olt_channel)
      → is_closed w.onu.channel ≡ true
      → handle_shutdown_onu engine stream is_mock atoi w ≡ panics
  unfolding handle_shutdown_onu send_omci_alarm_notification_msg tell send
  closed-panics w l c = ground (
    arith,
    simulate_dying_gasp atoi "on" w.onu.id w.onu.pon_port_id l.taken,
    simulate_los atoi "on" w.onu.id w.onu.pon_port_id (
        l.taken
        ++ record (los_indication "on" w.onu.id w.onu.pon_port_id) { kind = AlarmType.dying_gasp }
          ∷ []),
  )

  -- If an ONU without flows accepts `disable`, shutting it down after it panics, if the OLT receives its
  -- alarms: the LOS message is sent on the channel that the callback closed, before the state is looked
  -- at.
  pub handle_shutdown_onu-panics :
      (w : World) (r : Option EventError × World)
      → w.onu.flow_ids ≡ []
      → fire_onu engine stream is_mock OnuTx.disable w ≡ ok r
      → r.0 ≡ none
      → Listens r.1.olt_channel
      → handle_shutdown_onu engine stream is_mock atoi r.1 ≡ panics
  handle_shutdown_onu-panics w r h e accepted l =
      closed-panics r.1 l
        (ensured _ (fire_onu engine stream is_mock OnuTx.disable w) r e
          (fire_onu-disable-IsShut engine stream is_mock w h) accepted).2
