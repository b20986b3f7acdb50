-- ===== src/Onu/Invariant.antt =====
-- An invariant of the ONU's machine over its events (internal/bbsim/devices/onu.go, CreateONU): its
-- operational state and its channel follow its state.
use g_simulator.Prelude.{
  ℕ, ◌≡◌, ◌≢◌, inl, inr, refl, sym, subst, ◌∙◌, Bool, List, [], ◌∷◌, Option, Option-cases, arith,
}
use g_simulator.Onu.KeepsPorts.{IsBuffered, disable_unis-Safely, disable_all_pots-Safely}
use g_simulator.Go.{Safely, Safely-bind, Safely-map, Result, ok, Chan, buffered, ◌>>=◌, send, close}
use g_simulator.Fsm.{Engine, EventError, Outcome-cases, moves}
use g_simulator.Oper.{OperState, OperTx, oper_event-next}
use g_simulator.Messages.{Message, OperStatus, onu_indication}
use g_simulator.Pon.{is_onu_id_allocated, store_onu_id}
use g_simulator.Onu.Machine.{OnuState, OnuTx, next, onu_event, onu_event-next}
use g_simulator.Onu.State.{Onu, World, owner_of, onu_channel_size}
use g_simulator.Onu.Events.{
  tell, cleanup_onu_state, fire_oper, disable_unis, disable_all_pots, close_if_idle, enter_enabled,
  enter_initialized, ports_down, enter_disabled, enter_onu, fire_onu,
}
use g_simulator.Onu.Down.{HasPorts, quiet, stopped_lem}

-- The channel is open in all states but those before the first and after the last start.
abbrev pub HasChannel : OnuState → Chan Message → Type 0
HasChannel OnuState.created c = Unit
HasChannel OnuState.disabled c = Unit
HasChannel _ c = IsBuffered c

abbrev pub oper_of : OnuState → OperState
oper_of OnuState.created = OperState.down
oper_of OnuState.disabled = OperState.down
oper_of _ = OperState.up

pub record IsConsistent (o : Onu) : Type 0 where
  pub oper : o.oper_state ≡ oper_of o.internal_state
  pub has_channel : HasChannel o.internal_state o.channel
  pub ports : HasPorts o

module _ (engine : Engine) (stream : ℕ) (is_mock : Bool) where
  -- What a callback finds when a consistent ONU moves.
  record Entered (d : OnuState) (o : Onu) : Type 0 where
    state : o.internal_state ≡ d
    oper : d ≢ OnuState.initialized → o.oper_state ≡ OperState.up
    open_channel : d ≢ OnuState.initialized → IsBuffered o.channel
    ports : HasPorts o

  move-Entered :
      (o : Onu) (tx : OnuTx) (d : OnuState)
      → IsConsistent o
      → next o.internal_state tx ≡ moves d
      → Entered d (record o { internal_state = d })
  move-Entered o tx d c h = record {
    state = refl;
    oper = λ ne. ground (arith, c.oper);
    open_channel = λ ne. ground (arith, c.has_channel);
    ports = record { unis = c.ports.unis; pots = c.ports.pots };
  }

  idle :
      (ids : List ℕ) (c : Chan Message)
      → IsBuffered c
      → Safely (λ d. Unit {0}) (close_if_idle engine ids c)
  unfolding close_if_idle close
  idle ids c b = ground arith

  ports_down-Safely :
      (w : World)
      → IsBuffered w.onu.channel
      → w.onu.internal_state ≡ OnuState.disabled
      → w.onu.oper_state ≡ OperState.down
      → HasPorts w.onu
      → Safely (λ (v : World). IsConsistent v.onu) (ports_down engine stream is_mock w)
  unfolding ports_down
  ports_down-Safely w b s op p =
      let o = owner_of stream w.onu in
      Safely-bind _ _ (disable_unis engine o w.onu.channel w.onu.uni_ports) _
        (disable_unis-Safely engine o w.onu.uni_ports w.onu.channel b p.unis)
        λ (c1, unis) h.
          Safely-bind _ _ (disable_all_pots engine o c1 w.onu.pots_ports) _
            (disable_all_pots-Safely engine o w.onu.pots_ports c1 h.0 p.pots)
            λ (c2, pots) k.
              Safely-bind (λ c. Unit {0}) _ (close_if_idle engine w.onu.flow_ids c2) _
                (idle w.onu.flow_ids c2 k.0)
                λ c3 _. record {
                  oper = ground (arith, s, op);
                  has_channel = ground (arith, s);
                  ports = record { unis = h.1; pots = k.1 };
                }

  tell-Safely :
      (msg : Message) (w : World)
      → IsBuffered w.onu.channel
      → Safely
          (λ (v : World).
            IsBuffered v.onu.channel × (v.onu ≡ record w.onu { channel = v.onu.channel }))
          (tell msg w)
  unfolding tell send
  tell-Safely msg w b = ground arith

  enter_disabled-Safely :
      (w : World)
      → Entered OnuState.disabled w.onu
      → Safely (λ (v : World). IsConsistent v.onu) (enter_disabled engine stream is_mock w)
  unfolding enter_disabled
  enter_disabled-Safely w e = rw (stopped_lem engine stream is_mock w) (
      Safely-bind _ _ (tell _ (quiet engine stream is_mock w)) _
        (tell-Safely _ (quiet engine stream is_mock w) (e.open_channel (λ x. ground arith)))
        λ v h.
          ports_down-Safely v h.0 (ground (arith, h.1, e.state)) (ground (arith, h.1))
            (subst HasPorts (sym h.1) (record { unis = e.ports.unis; pots = e.ports.pots })))

  stays-IsConsistent :
      (d : OnuState) (w : World)
      → Entered d w.onu
      → d ≢ OnuState.initialized
      → oper_of d ≡ OperState.up
      → IsConsistent w.onu
  stays-IsConsistent d w e ne up = record {
    oper = ground (arith, e.oper ne, e.state, up);
    has_channel = ground (arith, e.state, e.open_channel ne);
    ports = record { unis = e.ports.unis; pots = e.ports.pots };
  }

  told-IsConsistent :
      (msg : Message) (d : OnuState) (w : World)
      → Entered d w.onu
      → d ≢ OnuState.initialized
      → oper_of d ≡ OperState.up
      → Safely (λ (v : World). IsConsistent v.onu) (tell msg w)
  told-IsConsistent msg d w e ne up =
      Safely-map _ _ (tell msg w)
        (λ v h. subst IsConsistent (sym h.1) (record {
          oper = ground (arith, e.oper ne, e.state, up);
          has_channel = ground (arith, e.state, h.0);
          ports = record { unis = e.ports.unis; pots = e.ports.pots };
        }))
        (tell-Safely msg w (e.open_channel ne))

  oper-enable :
      (o : Onu) → fire_oper engine OperTx.enable o ≡ record o { oper_state = OperState.up }
  unfolding fire_oper
  oper-enable o = ground (arith, oper_event-next engine o.oper_state OperTx.enable)

  enter_enabled-Safely :
      (w : World)
      → Entered OnuState.enabled w.onu
      → Safely (λ (v : World). IsConsistent v.onu) (enter_enabled engine w)
  unfolding enter_enabled
  enter_enabled-Safely w e = elim (Option-cases (is_onu_id_allocated w.pon w.onu.id)) [
    | inl free ↦ ground (
      arith,
      free,
      told-IsConsistent (onu_indication w.onu.serial_number w.onu.pon_port_id OperStatus.up)
          OnuState.enabled (record w { pon = store_onu_id w.pon w.onu.id w.onu.serial_number })
          (record {
            state = e.state;
            oper = e.oper;
            open_channel = e.open_channel;
            ports = e.ports;
          })
          (λ x. ground arith) refl,
    )
    | inr (sn, taken) ↦
        ground (arith, taken, stays-IsConsistent OnuState.enabled w e (λ x. ground arith) refl)
  ]

  enter_onu-Safely :
      (d : OnuState) (w : World)
      → d ≢ OnuState.created
      → Entered d w.onu
      → Safely (λ (v : World). IsConsistent v.onu) (enter_onu engine stream is_mock d w)
  unfolding enter_onu enter_initialized fire_oper cleanup_onu_state
  enter_onu-Safely OnuState.created w ne e = absurd (ne refl)
  enter_onu-Safely OnuState.initialized w ne e =
      subst IsConsistent
        (sym (oper-enable (record w.onu { channel = buffered onu_channel_size [] })))
        (record {
          oper = ground (arith, e.state);
          has_channel = ground (arith, e.state);
          ports = record { unis = e.ports.unis; pots = e.ports.pots };
        })
  enter_onu-Safely OnuState.discovered w ne e =
      told-IsConsistent _ OnuState.discovered w e (λ x. ground arith) refl
  enter_onu-Safely OnuState.enabled w ne e = enter_enabled-Safely w e
  enter_onu-Safely OnuState.disabled w ne e = enter_disabled-Safely w e
  enter_onu-Safely OnuState.pon_disabled w ne e =
      stays-IsConsistent OnuState.pon_disabled (cleanup_onu_state w)
        (record {
          state = e.state;
          oper = e.oper;
          open_channel = e.open_channel;
          ports = record { unis = e.ports.unis; pots = e.ports.pots };
        })
        (λ x. ground arith) refl
  enter_onu-Safely OnuState.eapol_flow_sent w ne e =
      told-IsConsistent _ OnuState.eapol_flow_sent w e (λ x. ground arith) refl
  enter_onu-Safely OnuState.dhcp_flow_sent w ne e =
      told-IsConsistent _ OnuState.dhcp_flow_sent w e (λ x. ground arith) refl
  enter_onu-Safely OnuState.image_download_started w ne e =
      stays-IsConsistent _ w e (λ x. ground arith) refl
  enter_onu-Safely OnuState.image_download_in_progress w ne e =
      stays-IsConsistent _ w e (λ x. ground arith) refl
  enter_onu-Safely OnuState.image_download_completed w ne e =
      stays-IsConsistent _ w e (λ x. ground arith) refl
  enter_onu-Safely OnuState.image_download_error w ne e =
      stays-IsConsistent _ w e (λ x. ground arith) refl
  enter_onu-Safely OnuState.software_image_activated w ne e =
      stays-IsConsistent _ w e (λ x. ground arith) refl
  enter_onu-Safely OnuState.software_image_committed w ne e =
      stays-IsConsistent _ w e (λ x. ground arith) refl

  moved : (s d : OnuState) (tx : OnuTx) → next s tx ≡ moves d → d ≢ OnuState.created
  moved s d tx h e = ground arith

  fire_onu-Safely :
      (tx : OnuTx) (w : World)
      → IsConsistent w.onu
      → Safely
          (λ (r : Option EventError × World). IsConsistent r.1.onu)
          (fire_onu engine stream is_mock tx w)
  unfolding fire_onu
  fire_onu-Safely tx w c = elim (Outcome-cases (onu_event engine w.onu.internal_state tx)) [
    | inl e ↦ ground (arith, e, c)
    | inr (inl e) ↦ ground (arith, e, c)
    | inr (inr (d, e)) ↦
        let h : next w.onu.internal_state tx ≡ moves d =
          sym (onu_event-next engine w.onu.internal_state tx) ∙ e in
        ground (
          arith,
          e,
          enter_onu-Safely d (record w { onu = record w.onu { internal_state = d } })
              (moved w.onu.internal_state d tx h) (move-Entered w.onu tx d c h),
        )
  ]

  -- Events one after the other, whose errors are only logged.
  abbrev pub fire_all : List OnuTx → World → Result World
  fire_all [] w = ok w
  fire_all (tx ∷ txs) w = do (_, v) ← fire_onu engine stream is_mock tx w; fire_all txs v

  -- From a consistent ONU (its OperState is up in all states but `created` and `disabled`, its channel
  -- is open in these states, its ports are well-formed), no sequence of events of its machine panics, and
  -- whenever it ends the ONU is consistent again.
  pub fire_all-IsConsistent :
      (txs : List OnuTx) (w : World)
      → IsConsistent w.onu
      → Safely (λ (v : World). IsConsistent v.onu) (fire_all txs w)
  fire_all-IsConsistent [] w c = c
  fire_all-IsConsistent (tx ∷ txs) w c =
      Safely-bind (λ (r : Option EventError × World). IsConsistent r.1.onu) _
        (fire_onu engine stream is_mock tx w) _ (fire_onu-Safely tx w c)
        λ (err, v) k. fire_all-IsConsistent txs v k
