-- ===== src/Onu/Reboot.antt =====
-- Shutting an ONU down and powering it on again (internal/bbsim/devices/onu.go: HandleShutdownONU,
-- HandlePowerOnONU, Reboot).
use Prim.Native.String.{String}
use g_simulator.Prelude.{
  ℕ, ◌+◌, ◌<◌, ◌≡◌, refl, Bool, true, false, List, [], ◌∷◌, ◌++◌, Option, none, some, All, length,
  length-append, if◌then◌else◌, arith,
}
use g_simulator.Go.{ok, Chan, buffered, received, ◌>>=◌, send, Yields, Yields-bind}
use g_simulator.Fsm.{Engine, moves}
use g_simulator.Oper.{OperState, OperTx, oper_event-next}
use g_simulator.Alarms.{
  AlarmIndication, AlarmType, simulate_onu_alarm, build_onu_alarm_indication, alarm_name_to_enum,
  details,
}
use g_simulator.Messages.{
  Message, OperStatus, onu_indication, onu_disc_indication, uni_status_alarm,
}
use g_simulator.Pon.{is_onu_id_allocated, store_onu_id}
use g_simulator.Onu.Machine.{OnuState, OnuTx, next, onu_event-next}
use g_simulator.Onu.State.{World, onu_channel_size, process_onu_messages}
use g_simulator.Onu.Events.{tell, cleanup_onu_state, fire_oper, fire_onu, enter_disabled}
use g_simulator.Onu.Power.{
  PowerError, send_omci_alarm_notification_msg, handle_shutdown_onu, handle_power_on_onu, reboot,
}
use g_simulator.Onu.PortsDown.{IsDownUni, IsDownPots}
use g_simulator.Onu.Release.{cleanup-id_free}
use g_simulator.Onu.Down.{HasRoom, HasPorts, IsDown, enter_disabled-IsDown}

abbrev pub los_indication : String → ℕ → ℕ → AlarmIndication
los_indication status onu_id intf_id = record {
  kind = AlarmType.onu_alarm_los;
  status = some status;
  onu_id = onu_id;
  intf_id = intf_id;
  numbers = [];
}

module _ (atoi : String → Option ℕ) (status : String) (onu_id intf_id : ℕ)
    (taken : List AlarmIndication) where
  pub simulate_los :
      simulate_onu_alarm atoi
        (record { alarm_type = "ONU_ALARM_LOS"; parameters = []; status = status })
        onu_id
        intf_id
        (received taken)
      ≡ ok (some (received (taken ++ los_indication status onu_id intf_id ∷ [])))
  unfolding simulate_onu_alarm build_onu_alarm_indication alarm_name_to_enum details send
  simulate_los = refl

  pub simulate_dying_gasp :
      simulate_onu_alarm atoi
        (record { alarm_type = "DYING_GASP"; parameters = []; status = status })
        onu_id
        intf_id
        (received taken)
      ≡ ok (
          some (
            received (
              taken
              ++ record (los_indication status onu_id intf_id) { kind = AlarmType.dying_gasp }
                ∷ [])))
  unfolding simulate_onu_alarm build_onu_alarm_indication alarm_name_to_enum details send
  simulate_dying_gasp = refl

-- The OLT receives from its channel.
pub record Listens (c : Chan AlarmIndication) : Type 0 where
  pub taken : List AlarmIndication
  pub is_received : c ≡ received taken

module _ (engine : Engine) (stream : ℕ) (is_mock : Bool) (atoi : String → Option ℕ) where
  abbrev los_message : Bool → World → Message
  los_message raise w =
      (uni_status_alarm (record {
        onu_sn = w.onu.serial_number;
        onu_id = w.onu.id;
        admin_state = 0;
        entity_id = 257;
        raise_omci_alarm = raise;
      }))

  -- From `disabled`, with its ONU id free, powering on brings the ONU to `enabled`.
  power_on_lem :
      (w : World)
      → w.onu.internal_state ≡ OnuState.disabled
      → (l : Listens w.olt_channel) → is_onu_id_allocated w.pon w.onu.id ≡ none
      → handle_power_on_onu engine stream is_mock atoi w
        ≡ ok (
          none,
          record w {
            onu = record w.onu {
              internal_state = OnuState.enabled;
              oper_state = OperState.up;
              channel = buffered onu_channel_size (
                  los_message false w
                  ∷ onu_disc_indication OperStatus.up
                  ∷ onu_indication w.onu.serial_number w.onu.pon_port_id OperStatus.up
                  ∷ []);
            };
            pon = store_onu_id w.pon w.onu.id w.onu.serial_number;
            olt_channel =
                received (l.taken ++ los_indication "off" w.onu.id w.onu.pon_port_id ∷ []);
            spawned = if is_mock then w.spawned else process_onu_messages ∷ w.spawned;
          },
        )
  unfolding handle_power_on_onu send_omci_alarm_notification_msg fire_onu fire_oper tell send
  power_on_lem w h l f = ground (
    arith,
    onu_event-next engine OnuState.disabled OnuTx.initialize,
    onu_event-next engine OnuState.initialized OnuTx.discover,
    onu_event-next engine OnuState.discovered OnuTx.enable,
    oper_event-next engine w.onu.oper_state OperTx.enable,
    simulate_los atoi "off" w.onu.id w.onu.pon_port_id l.taken,
  )

  -- The world as `enter_disabled` finds it in a shutdown.
  abbrev shutting_down : (w : World) → Listens w.olt_channel → ℕ → List Message → World
  shutting_down w l cap held =
      let los = los_indication "on" w.onu.id w.onu.pon_port_id in
      let alarms = (l.taken ++ record los { kind = AlarmType.dying_gasp } ∷ []) ++ los ∷ [] in
      record w {
        onu = record w.onu {
          internal_state = OnuState.disabled;
          channel = buffered cap (held ++ los_message true w ∷ []);
        };
        olt_channel = received alarms;
      }

  shutdown_lem :
      (w : World) (l : Listens w.olt_channel) (cap : ℕ) (held : List Message)
      → w.onu.channel ≡ buffered cap held
      → length held < cap
      → next w.onu.internal_state OnuTx.disable ≡ moves OnuState.disabled
      → handle_shutdown_onu engine stream is_mock atoi w
        ≡ (do w' ← enter_disabled engine stream is_mock (shutting_down w l cap held); ok (none, w'))
  unfolding handle_shutdown_onu send_omci_alarm_notification_msg fire_onu tell send
  shutdown_lem w l cap held h room m = ground (
    arith,
    onu_event-next engine w.onu.internal_state OnuTx.disable,
    simulate_dying_gasp atoi "on" w.onu.id w.onu.pon_port_id l.taken,
    simulate_los atoi "on" w.onu.id w.onu.pon_port_id (
        l.taken
        ++ record (los_indication "on" w.onu.id w.onu.pon_port_id) { kind = AlarmType.dying_gasp }
          ∷ []),
  )

  -- What lets an ONU reboot: `disable` is an event of its state, the OLT receives from its channel,
  -- the ONU's channel has room for the messages of the shutdown, and the ports are well-formed.
  pub record CanReboot (w : World) : Type 0 where
    pub may_disable : next w.onu.internal_state OnuTx.disable ≡ moves OnuState.disabled
    pub listens : Listens w.olt_channel
    pub room : HasRoom (2 + length w.onu.uni_ports + length w.onu.pots_ports) w.onu.channel
    pub ports : HasPorts w.onu

  -- The ONU is up again, its ports are down.
  pub record IsRebooted (w : World) (r : Option PowerError × World) : Type 0 where
    pub no_error : r.0 ≡ none
    pub state : r.1.onu.internal_state ≡ OnuState.enabled
    pub oper_state : r.1.onu.oper_state ≡ OperState.up
    pub channel :
        r.1.onu.channel
        ≡ buffered onu_channel_size (
            los_message false w
            ∷ onu_disc_indication OperStatus.up
            ∷ onu_indication w.onu.serial_number w.onu.pon_port_id OperStatus.up
            ∷ [])
    pub pon : r.1.pon ≡ store_onu_id (cleanup_onu_state w).pon w.onu.id w.onu.serial_number
    pub unis : All IsDownUni r.1.onu.uni_ports
    pub pots : All IsDownPots r.1.onu.pots_ports

  power_on-IsRebooted :
      (w v : World)
      → v.onu.internal_state ≡ OnuState.disabled
      → Listens v.olt_channel
      → v.pon ≡ (cleanup_onu_state w).pon
      → v.onu.id ≡ w.onu.id
      → v.onu.serial_number ≡ w.onu.serial_number
      → v.onu.pon_port_id ≡ w.onu.pon_port_id
      → All IsDownUni v.onu.uni_ports
      → All IsDownPots v.onu.pots_ports
      → Yields (IsRebooted w) (handle_power_on_onu engine stream is_mock atoi v)
  power_on-IsRebooted w v s l p i sn pp us ps =
      rw (power_on_lem v s l (ground (arith, cleanup-id_free w))) (record {
        no_error = refl;
        state = refl;
        oper_state = refl;
        channel = cc;
        pon = cc;
        unis = us;
        pots = ps;
      })

  shutdown_room :
      (w : World) (c : CanReboot w)
      → HasRoom
          (1 + length w.onu.uni_ports + length w.onu.pots_ports)
          (shutting_down w c.listens c.room.cap c.room.held).onu.channel
  shutdown_room w c = record {
    cap = c.room.cap;
    held = c.room.held ++ los_message true w ∷ [];
    is_buffered = refl;
    room = omega (arith, c.room.room, length-append c.room.held (los_message true w ∷ []));
  }

  abbrev Off : World → Option PowerError × World → Type 0
  Off w (err, v) = (err ≡ none) × IsDown w v

  -- If the ONU's state accepts `disable`, the OLT receives from its channel, the ONU's channel has room
  -- and its ports are well-formed, Reboot ends with no error and with the ONU in `enabled`, its ONU id stored again and its GEM
  -- ports and alloc ids given back, its ports down, and in its new channel the cleared LOS alarm, the
  -- discovery and the UP indication, in this order.
  pub reboot-IsRebooted :
      (w : World) → CanReboot w → Yields (IsRebooted w) (reboot engine stream is_mock atoi w)
  unfolding reboot cleanup_onu_state
  reboot-IsRebooted w c =
      let start = shutting_down w c.listens c.room.cap c.room.held in
      rw
        (shutdown_lem w c.listens c.room.cap c.room.held c.room.is_buffered
          (omega (arith, c.room.room)) c.may_disable)
        (Yields-bind (Off start) (IsRebooted w)
          (do w' ← enter_disabled engine stream is_mock start; ok (none, w')) _
          (Yields-bind (IsDown start) (Off start) (enter_disabled engine stream is_mock start) _
            (enter_disabled-IsDown engine stream is_mock start (shutdown_room w c)
              (record { unis = c.ports.unis; pots = c.ports.pots }))
            λ v d. (refl, d))
          λ (err, v) (no_error, d). rw no_error (
            power_on-IsRebooted w v d.state (record { taken = _; is_received = d.olt_channel })
              d.pon d.id d.serial_number d.pon_port_id d.unis d.pots))
