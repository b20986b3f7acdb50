-- ===== src/Onu/Down.antt =====
-- What the callback `enter_disabled` leaves of an ONU (internal/bbsim/devices/onu.go, CreateONU).
use g_simulator.Prelude.{
  ℕ, ◌+◌, ◌≤◌, ◌<◌, ◌≡◌, refl, sym, ap, subst, Bool, List, [], ◌∷◌, ◌++◌, All, length,
  length-append, arith,
}
use g_simulator.Go.{ok, Chan, buffered, send, close, Yields, Yields-bind, Yields-map}
use g_simulator.Fsm.{Engine}
use g_simulator.Oper.{OperState, OperTx, oper_event-next}
use g_simulator.Messages.{Message, OperStatus, onu_indication}
use g_simulator.Uni.Switching.{IsUniWellformed}
use g_simulator.Onu.State.{Onu, World, owner_of}
use g_simulator.Onu.Events.{
  tell, cleanup_onu_state, fire_oper, disable_unis, disable_all_pots, close_if_idle, stopped,
  ports_down, enter_disabled,
}
use g_simulator.Onu.PortsDown.{
  IsDownUni, IsDownPots, IsPotsWellformed, Downed, disable_unis-Downed, disable_all_pots-Downed,
}

pub tell_lem :
    (msg : Message) (w : World) (cap : ℕ) (held : List Message)
    → w.onu.channel ≡ buffered cap held
    → length held < cap
    → tell msg w
      ≡ ok (record w { onu = record w.onu { channel = buffered cap (held ++ msg ∷ []) } })
unfolding tell send
tell_lem msg w cap held h room = ground arith

-- The channel has room for so many more messages.
pub record HasRoom (n : ℕ) (c : Chan Message) : Type 0 where
  pub cap : ℕ
  pub held : List Message
  pub is_buffered : c ≡ buffered cap held
  pub room : length held + n ≤ cap

pub record HasPorts (o : Onu) : Type 0 where
  pub unis : All IsUniWellformed o.uni_ports
  pub pots : All IsPotsWellformed o.pots_ports

-- What the loops over the ports make of `w`.
pub record IsPortsDown (w w' : World) : Type 0 where
  pub unis : All IsDownUni w'.onu.uni_ports
  pub pots : All IsDownPots w'.onu.pots_ports
  pub rest : w' ≡ record w {
    onu = record w.onu {
      uni_ports = w'.onu.uni_ports;
      pots_ports = w'.onu.pots_ports;
      channel = w'.onu.channel;
    };
  }

-- What `enter_disabled` makes of `w`.
pub record IsDown (w w' : World) : Type 0 where
  pub state : w'.onu.internal_state ≡ w.onu.internal_state
  pub oper_state : w'.onu.oper_state ≡ OperState.down
  pub pon : w'.pon ≡ (cleanup_onu_state w).pon
  pub olt_channel : w'.olt_channel ≡ w.olt_channel
  pub unis : All IsDownUni w'.onu.uni_ports
  pub pots : All IsDownPots w'.onu.pots_ports
  pub id : w'.onu.id ≡ w.onu.id
  pub serial_number : w'.onu.serial_number ≡ w.onu.serial_number
  pub pon_port_id : w'.onu.pon_port_id ≡ w.onu.pon_port_id

module _ (engine : Engine) (stream : ℕ) (is_mock : Bool) where
  oper-disable :
      (o : Onu) → (fire_oper engine OperTx.disable o) ≡ record o { oper_state = OperState.down }
  unfolding fire_oper
  oper-disable o = ground (arith, oper_event-next engine o.oper_state OperTx.disable)

  abbrev pub quiet : World → World
  quiet w = record w {
    onu = record w.onu { flows = []; onu_alarms_info = []; oper_state = OperState.down };
    pon = (cleanup_onu_state w).pon;
  }

  pub stopped_lem : (w : World) → stopped engine stream is_mock w ≡ quiet w
  unfolding stopped cleanup_onu_state
  stopped_lem w = rw oper-disable

  close_if_idle-Yields :
      (ids : List ℕ) (cap : ℕ) (held : List Message)
      → Yields (λ c. Unit {0}) (close_if_idle engine ids (buffered cap held))
  unfolding close_if_idle close
  close_if_idle-Yields [] cap held = tt
  close_if_idle-Yields (i ∷ ids) cap held = tt

  ports_down-IsDown :
      (w : World) (cap : ℕ) (held : List Message)
      → w.onu.channel ≡ buffered cap held
      → length held + length w.onu.uni_ports + length w.onu.pots_ports ≤ cap
      → HasPorts w.onu
      → Yields (IsPortsDown w) (ports_down engine stream is_mock w)
  unfolding ports_down
  ports_down-IsDown w cap held h room p =
      let o = owner_of stream w.onu in
      let us = w.onu.uni_ports in
      let ps = w.onu.pots_ports in
      Yields-bind (Downed IsDownUni cap (length held + length us)) (IsPortsDown w)
        (disable_unis engine o w.onu.channel us) _
        (subst
          (λ c.
            Yields (Downed IsDownUni cap (length held + length us)) (disable_unis engine o c us))
          (sym h) (disable_unis-Downed engine o cap us held (omega arith) p.unis))
        λ (c1, unis) d1.
          Yields-bind (Downed IsDownPots cap (length d1.0.held + length ps)) (IsPortsDown w)
            (disable_all_pots engine o c1 ps) _
            (subst
              (λ c.
                Yields (Downed IsDownPots cap (length d1.0.held + length ps))
                  (disable_all_pots engine o c ps))
              (sym d1.0.is_buffered)
              (disable_all_pots-Downed engine o cap ps d1.0.held (omega (arith, d1.0.bounded))
                p.pots))
            λ (c2, pots) d2.
              Yields-bind (λ c. Unit {0}) (IsPortsDown w) (close_if_idle engine w.onu.flow_ids c2) _
                (subst (λ c. Yields (λ c'. Unit {0}) (close_if_idle engine w.onu.flow_ids c))
                  (sym d2.0.is_buffered) (close_if_idle-Yields w.onu.flow_ids cap d2.0.held))
                λ c3 _. record { unis = d1.1; pots = d2.1; rest = refl }

  -- `enter_disabled` comes to its end if the channel has room for the indication and the alarms.
  pub enter_disabled-IsDown :
      (w : World)
      → HasRoom (1 + length w.onu.uni_ports + length w.onu.pots_ports) w.onu.channel
      → HasPorts w.onu
      → Yields (IsDown w) (enter_disabled engine stream is_mock w)
  unfolding enter_disabled cleanup_onu_state
  enter_disabled-IsDown w r p = rw (stopped_lem w) (
      rw (tell_lem _ (quiet w) r.cap r.held r.is_buffered (omega (arith, r.room))) (
        Yields-map _ (IsDown w) (ports_down engine stream is_mock _)
          (λ w' d. record {
            state = ap (λ (v : World). v.onu.internal_state) d.rest;
            oper_state = ap (λ (v : World). v.onu.oper_state) d.rest;
            pon = ap (λ (v : World). v.pon) d.rest;
            olt_channel = ap (λ (v : World). v.olt_channel) d.rest;
            unis = d.unis;
            pots = d.pots;
            id = ap (λ (v : World). v.onu.id) d.rest;
            serial_number = ap (λ (v : World). v.onu.serial_number) d.rest;
            pon_port_id = ap (λ (v : World). v.onu.pon_port_id) d.rest;
          })
          (ports_down-IsDown
            (record (quiet w) {
              onu = record (quiet w).onu {
                channel = buffered r.cap (
                    r.held
                    ++ onu_indication w.onu.serial_number w.onu.pon_port_id OperStatus.down ∷ []);
              };
            })
            r.cap _ refl
            (omega (
              arith,
              length-append r.held
                  (onu_indication w.onu.serial_number w.onu.pon_port_id OperStatus.down ∷ []),
            ))
            (record { unis = p.unis; pots = p.pots }))))
