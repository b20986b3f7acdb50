-- ===== src/Onu/Omci/Steady.antt =====
-- What the cases of handleOmciRequest leave as it is: the response rate of an ONU, the counter of a
-- round, and a closed channel (internal/bbsim/devices/onu.go).
use g_simulator.Prelude.{ℕ, ◌≡◌, inl, inr, ◌∙◌, refl, Bool, List, Option, none, some, arith}
use g_simulator.Go.{Result, StaysClosed, Ensures, Ensures-bind}
use g_simulator.Fsm.{Engine, Outcome, moves, Outcome-cases}
use g_simulator.Onu.Machine.{OnuState, OnuTx, next, onu_event, onu_event-next}
use g_simulator.Onu.State.{World}
use g_simulator.Onu.Events.{enter_onu, fire_onu}
use g_simulator.Onu.Omci.Base.{Handled, respond_then, fire_logged}

-- The counter and the rate are the same, and a closed channel is.
abbrev pub Steady : World → World → Type 0
Steady w v =
    (v.onu.omci_msg_counter ≡ w.onu.omci_msg_counter)
    × (v.onu.omci_response_rate ≡ w.onu.omci_response_rate)
    × StaysClosed w.onu.channel v.onu.channel

pub Steady-refl : (w : World) → Steady w w
Steady-refl w = (refl, refl, λ held e. e)

pub Steady-trans : (w v u : World) → Steady w v → Steady v u → Steady w u
Steady-trans w v u h k = (k.0 ∙ h.0, k.1 ∙ h.1, λ held e. k.2 held (h.2 held e))

-- The result of a case of the switch is steady.
abbrev pub EndsSteady : World → Result (Handled × World) → Type 0
EndsSteady w r = Ensures (λ (x : Handled × World). Steady w x.1) r

pub respond_then-EndsSteady :
    (response : Option (List ℕ)) (f : World → Result World) (w v : World)
    → Steady w v
    → Ensures (Steady v) (f v)
    → EndsSteady w (respond_then response f v)
respond_then-EndsSteady none f w v h k = h
respond_then-EndsSteady (some bytes) f w v h k =
    Ensures-bind (Steady v) (λ x. Steady w x.1) (f v) _ k λ u e. Steady-trans w v u h e

-- The events that handleOmciRequest fires.
pub data IsImageTx : OnuTx → Type 0 where
  starts : IsImageTx OnuTx.start_image_download
  progresses : IsImageTx OnuTx.progress_image_download
  completes : IsImageTx OnuTx.complete_image_download
  fails : IsImageTx OnuTx.fail_image_download
  activates : IsImageTx OnuTx.activate_image
  commits : IsImageTx OnuTx.commit_image

-- A state without callback.
abbrev IsPassive : OnuState → Type 0
IsPassive OnuState.image_download_started = Unit
IsPassive OnuState.image_download_in_progress = Unit
IsPassive OnuState.image_download_completed = Unit
IsPassive OnuState.image_download_error = Unit
IsPassive OnuState.software_image_activated = Unit
IsPassive OnuState.software_image_committed = Unit
IsPassive _ = ⊥

abbrev Lands : Outcome OnuState → Type 0
Lands (moves d) = IsPassive d
Lands _ = Unit

image-Lands : (s : OnuState) (tx : OnuTx) → IsImageTx tx → Lands (next s tx)
image-Lands OnuState.created tx starts = tt
image-Lands _ tx starts = tt
image-Lands OnuState.created tx progresses = tt
image-Lands _ tx progresses = tt
image-Lands OnuState.created tx completes = tt
image-Lands _ tx completes = tt
image-Lands OnuState.created tx fails = tt
image-Lands _ tx fails = tt
image-Lands OnuState.created tx activates = tt
image-Lands _ tx activates = tt
image-Lands OnuState.created tx commits = tt
image-Lands _ tx commits = tt

module _ (engine : Engine) (stream : ℕ) (is_mock : Bool) where
  enter_onu-Steady :
      (d : OnuState) (w : World)
      → IsPassive d
      → Ensures (Steady w) (enter_onu engine stream is_mock d w)
  unfolding enter_onu
  enter_onu-Steady OnuState.image_download_started w p = Steady-refl w
  enter_onu-Steady OnuState.image_download_in_progress w p = Steady-refl w
  enter_onu-Steady OnuState.image_download_completed w p = Steady-refl w
  enter_onu-Steady OnuState.image_download_error w p = Steady-refl w
  enter_onu-Steady OnuState.software_image_activated w p = Steady-refl w
  enter_onu-Steady OnuState.software_image_committed w p = Steady-refl w
  enter_onu-Steady _ w p = absurd p

  fire_onu-Steady :
      (tx : OnuTx) (w : World)
      → IsImageTx tx
      → Ensures (λ r. Steady w r.1) (fire_onu engine stream is_mock tx w)
  unfolding fire_onu
  fire_onu-Steady tx w i =
      let lands = image-Lands w.onu.internal_state tx i in
      let same = onu_event-next engine w.onu.internal_state tx in
      elim (Outcome-cases (onu_event engine w.onu.internal_state tx)) [
        | inl e ↦ ground (arith, e)
        | inr (inl e) ↦ ground (arith, e)
        | inr (inr (d, e)) ↦
            let p : IsPassive d = ground (arith, e, same, lands) in
            ground (
              arith,
              e,
              enter_onu-Steady d (record w { onu = record w.onu { internal_state = d } }) p,
            )
      ]

  pub fire_logged-Steady :
      (tx : OnuTx) (w : World)
      → IsImageTx tx
      → Ensures (Steady w) (fire_logged engine stream is_mock tx w)
  unfolding fire_logged
  fire_logged-Steady tx w i =
      Ensures-bind (λ r. Steady w r.1) (Steady w) (fire_onu engine stream is_mock tx w) _
        (fire_onu-Steady tx w i) λ (err, v) h. h
