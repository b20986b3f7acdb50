-- ===== src/Onu/Power.antt =====
-- Switching an ONU off and on (internal/bbsim/devices/onu.go: HandleShutdownONU, HandlePowerOnONU,
-- Reboot, ReDiscoverOnu, SetAlarm, SendOMCIAlarmNotificationMsg). `some` is the error returned.
use Prim.Native.String.{String}
use text.Mathlib.Text.{◌==◌ as str_eq}
use g_simulator.Prelude.{ℕ, Bool, true, false, ◌||◌, [], Option, none, some, if◌then◌else◌}
use g_simulator.Go.{Result, ok, ◌>>=◌}
use g_simulator.Fsm.{Engine, EventError}
use g_simulator.Alarms.{simulate_onu_alarm}
use g_simulator.Messages.{uni_status_alarm}
use g_simulator.Onu.Machine.{OnuState, OnuTx}
use g_simulator.Onu.State.{World}
use g_simulator.Onu.Events.{tell, fire_onu}

pub data PowerError : Type 0 where
  alarm_failed : PowerError
  event_failed : EventError → PowerError

-- SendOMCIAlarmNotificationMsg.
unfoldable pub send_omci_alarm_notification_msg : Bool → String → World → Result World
send_omci_alarm_notification_msg raise alarm_type w =
    if str_eq alarm_type "ONU_ALARM_LOS"
    then tell
        (uni_status_alarm (record {
          onu_sn = w.onu.serial_number;
          onu_id = w.onu.id;
          admin_state = 0;
          entity_id = 257;
          raise_omci_alarm = raise;
        }))
        w
    else ok w

-- The next statement runs if the one before returned no error.
abbrev pub if_ok :
    Result (Option PowerError × World)
    → (World → Result (Option PowerError × World))
    → Result (Option PowerError × World)
if_ok r f = r >>= λ (err, w). elim err [ none ↦ f w | some e ↦ ok (some e, w) ]

module _ (engine : Engine) (stream : ℕ) (is_mock : Bool) (atoi : String → Option ℕ) where
  -- `alarmsim.SimulateOnuAlarm` at this ONU.
  unfoldable pub simulate : String → String → World → Result (Option PowerError × World)
  simulate alarm_type status w = do
    sent ←
        simulate_onu_alarm atoi
          (record { alarm_type = alarm_type; parameters = []; status = status }) w.onu.id
          w.onu.pon_port_id w.olt_channel
    elim sent [
      | none ↦ ok (some alarm_failed, w)
      | some channel ↦ ok (none, record w { olt_channel = channel })
    ]

  -- `o.InternalState.Event(tx)` whose error is returned.
  unfoldable pub event : OnuTx → World → Result (Option PowerError × World)
  event tx w = do
    (err, w') ← fire_onu engine stream is_mock tx w
    elim err [ none ↦ ok (none, w') | some e ↦ ok (some (event_failed e), w') ]

  -- SendOMCIAlarmNotificationMsg returns no error.
  unfoldable pub notify : Bool → String → World → Result (Option PowerError × World)
  notify raise alarm_type w = do
    w' ← send_omci_alarm_notification_msg raise alarm_type w
    ok (none, w')

  -- HandleShutdownONU.
  unfoldable pub handle_shutdown_onu : World → Result (Option PowerError × World)
  unfolding simulate event notify
  handle_shutdown_onu w = if_ok (simulate "DYING_GASP" "on" w) λ w1.
      if_ok (simulate "ONU_ALARM_LOS" "on" w1)
        λ w2. if_ok (notify true "ONU_ALARM_LOS" w2) λ w3. event OnuTx.disable w3

  -- `if intitalState == ... { Event(tx) }`.
  unfoldable pub event_if : Bool → OnuTx → World → Result (Option PowerError × World)
  event_if true tx w = event tx w
  event_if false tx w = ok (none, w)

  abbrev pub is_created : OnuState → Bool
  is_created OnuState.created = true
  is_created _ = false

  abbrev pub is_disabled : OnuState → Bool
  is_disabled OnuState.disabled = true
  is_disabled _ = false

  -- HandlePowerOnONU.
  unfoldable pub handle_power_on_onu : World → Result (Option PowerError × World)
  unfolding simulate event notify event_if
  handle_power_on_onu w =
      let initial = w.onu.internal_state in
      if_ok (event_if (is_created initial || is_disabled initial) OnuTx.initialize w) λ w1.
        if_ok (simulate "ONU_ALARM_LOS" "off" w1) λ w2.
          if_ok (notify false "ONU_ALARM_LOS" w2) λ w3.
            if_ok (event OnuTx.discover w3) λ w4. event_if (is_disabled initial) OnuTx.enable w4

  -- Reboot; the pause is not modelled.
  unfoldable pub reboot : World → Result (Option PowerError × World)
  reboot w = if_ok (handle_shutdown_onu w) handle_power_on_onu

  -- SetAlarm.
  unfoldable pub set_alarm : String → String → World → Result (Option PowerError × World)
  unfolding simulate notify
  set_alarm alarm_type status w =
      if_ok (simulate alarm_type status w) (notify (str_eq status "on") alarm_type)

  -- ReDiscoverOnu, whose errors are only logged; the pause is not modelled.
  unfoldable pub re_discover_onu : World → Result World
  re_discover_onu w = do
    (_, w1) ← fire_onu engine stream is_mock OnuTx.initialize w
    (_, w2) ← fire_onu engine stream is_mock OnuTx.discover w1
    ok w2
