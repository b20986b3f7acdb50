-- ===== src/Onu/Flows/Faults.antt =====
-- Calls that end in a run-time panic (internal/bbsim/devices/onu.go: handleFlowAdd, handleFlowRemove,
-- HandleShutdownONU).
use g_simulator.Prelude.{
  ℕ, ◌≡◌, ◌⊎◌, inl, inr, refl, sym, subst, ◌∙◌, Bool, true, false, List, [], Option, none, some,
  arith,
}
use g_simulator.Go.{
  ok, panics, Chan, closed, ◌>>=◌, send, close, Ensures, Ensures-bind, Ensures-any, ensured,
}
use g_simulator.Fsm.{Engine, EventError, refused, moves}
use g_simulator.Onu.Down.{quiet, stopped_lem}
use g_simulator.Messages.{Message}
use g_simulator.Onu.Machine.{OnuState, OnuTx, next, onu_event, onu_event-next}
use g_simulator.Onu.State.{Onu, World, owner_of}
use g_simulator.Onu.Events.{
  tell, disable_unis, disable_all_pots, ports_down, close_if_idle, enter_disabled, enter_onu,
  fire_onu,
}
use g_simulator.Onu.Flows.{remove_first, handle_flow_remove, when_no_flow_left, close_if_disabled}

abbrev pub is_closed {ℓ} : {M : Type ℓ} → Chan M → Bool
is_closed (closed held) = true
is_closed _ = false

close-is_closed : (c d : Chan Message) → close c ≡ ok d → is_closed d ≡ true
unfolding close
close-is_closed c d h = ground arith

module _ (engine : Engine) (stream : ℕ) (is_mock : Bool) where
  -- The ONU is in this state, has no flow, and its channel is closed.
  abbrev pub IsShut : OnuState → World → Type 0
  IsShut state w =
      (w.onu.internal_state ≡ state) × (w.onu.flow_ids ≡ []) × (is_closed w.onu.channel ≡ true)

  close_if_idle-Ensures :
      (ids : List ℕ) (c : Chan Message)
      → ids ≡ []
      → Ensures (λ d. is_closed d ≡ true) (close_if_idle engine ids c)
  unfolding close_if_idle close
  close_if_idle-Ensures ids c h = ground arith

  ports_down-IsShut :
      (w : World)
      → w.onu.flow_ids ≡ []
      → Ensures (IsShut w.onu.internal_state) (ports_down engine stream is_mock w)
  unfolding ports_down
  ports_down-IsShut w h =
      Ensures-bind (λ _. Unit {0}) _
        (disable_unis engine (owner_of stream w.onu) w.onu.channel w.onu.uni_ports) _
        (Ensures-any _)
        λ (c1, unis) _.
          Ensures-bind (λ _. Unit {0}) _
            (disable_all_pots engine (owner_of stream w.onu) c1 w.onu.pots_ports) _ (Ensures-any _)
            λ (c2, pots) _.
              Ensures-bind (λ d. is_closed d ≡ true) _ (close_if_idle engine w.onu.flow_ids c2) _
                (close_if_idle-Ensures w.onu.flow_ids c2 h) λ c3 e. (refl, h, e)

  tell-Ensures :
      (msg : Message) (w : World)
      → Ensures
          (λ v. (v.onu.internal_state ≡ w.onu.internal_state) × (v.onu.flow_ids ≡ w.onu.flow_ids))
          (tell msg w)
  unfolding tell
  tell-Ensures msg w =
      Ensures-bind (λ _. Unit {0}) _ (send w.onu.channel msg) _ (Ensures-any _) λ c _. (refl, refl)

  enter_disabled-IsShut :
      (w : World)
      → w.onu.flow_ids ≡ []
      → Ensures (IsShut w.onu.internal_state) (enter_disabled engine stream is_mock w)
  unfolding enter_disabled
  enter_disabled-IsShut w h = rw (stopped_lem engine stream is_mock w) (
      Ensures-bind _ (IsShut w.onu.internal_state) (tell _ (quiet engine stream is_mock w)) _
        (tell-Ensures _ _)
        λ v k.
          subst (λ s. Ensures (IsShut s) (ports_down engine stream is_mock v)) k.0
            (ports_down-IsShut v (k.1 ∙ h)))

  next-disable :
      (s : OnuState)
      → (next s OnuTx.disable ≡ refused) ⊎ (next s OnuTx.disable ≡ moves OnuState.disabled)
  next-disable s = ground arith

  fire_onu-refused :
      (w : World) (tx : OnuTx)
      → onu_event engine w.onu.internal_state tx ≡ refused
      → fire_onu engine stream is_mock tx w ≡ ok (some EventError.invalid_event, w)
  unfolding fire_onu
  fire_onu-refused w tx e = ground (arith, e)

  fire_onu-moves :
      (w : World) (tx : OnuTx) (d : OnuState)
      → onu_event engine w.onu.internal_state tx ≡ moves d
      → fire_onu engine stream is_mock tx w ≡ (
          enter_onu engine stream is_mock d (record w { onu = record w.onu { internal_state = d } })
          >>= λ v. ok (none, v))
  unfolding fire_onu
  fire_onu-moves w tx d e = ground (arith, e)

  pub fire_onu-disable-IsShut :
      (w : World)
      → w.onu.flow_ids ≡ []
      → Ensures
          (λ r. r.0 ≡ none → IsShut OnuState.disabled r.1)
          (fire_onu engine stream is_mock OnuTx.disable w)
  unfolding fire_onu enter_onu
  fire_onu-disable-IsShut w h = elim (next-disable w.onu.internal_state) [
    | inl e ↦
        subst (Ensures _) (sym (fire_onu-refused w OnuTx.disable (onu_event-next _ _ _ ∙ e)))
          λ absurd_none. ground arith
    | inr e ↦
        subst (Ensures _)
          (sym (fire_onu-moves w OnuTx.disable OnuState.disabled (onu_event-next _ _ _ ∙ e)))
          (Ensures-bind (IsShut OnuState.disabled) _ _ _
            (enter_disabled-IsShut
              (record w { onu = record w.onu { internal_state = OnuState.disabled } }) h)
            λ v k _. k)
  ]

  shut-panics :
      (flow_id : ℕ) (w : World)
      → IsShut OnuState.disabled w
      → handle_flow_remove flow_id w.onu ≡ panics
  unfolding handle_flow_remove when_no_flow_left close_if_disabled remove_first close
  shut-panics flow_id w h = ground arith

  -- If an ONU without flows accepts `disable`, every removal of a flow after it panics: it closes the
  -- channel that the callback closed.
  pub handle_flow_remove-panics :
      (w : World) (r : Option EventError × World) (flow_id : ℕ)
      → w.onu.flow_ids ≡ []
      → fire_onu engine stream is_mock OnuTx.disable w ≡ ok r
      → r.0 ≡ none
      → handle_flow_remove flow_id r.1.onu ≡ panics
  handle_flow_remove-panics w r flow_id h e accepted = shut-panics flow_id r.1 (
      ensured _ (fire_onu engine stream is_mock OnuTx.disable w) r e (fire_onu-disable-IsShut w h)
        accepted)
