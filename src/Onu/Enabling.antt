-- ===== src/Onu/Enabling.antt =====
-- Enabling an ONU, with its ONU id free or in use (internal/bbsim/devices/onu.go, CreateONU).
use g_simulator.Prelude.{
  ℕ, ◌<◌, ◌≡◌, refl, Bool, List, [], ◌∷◌, ◌++◌, Option, none, some, Option-cases, inl, inr, length,
  arith,
}
use g_simulator.Go.{ok, buffered, Yields}
use g_simulator.Fsm.{Engine, EventError, moves}
use g_simulator.Messages.{Message, Sn, OperStatus, onu_indication}
use g_simulator.Pon.{is_onu_id_allocated, store_onu_id}
use g_simulator.Pon.Ownership.{onu_id-store_onu_id}
use g_simulator.Onu.Machine.{OnuState, OnuTx, next, onu_event-next}
use g_simulator.Onu.State.{World}
use g_simulator.Onu.Events.{enter_enabled, enter_onu, fire_onu}
use g_simulator.Onu.Down.{tell_lem}

abbrev pub enabled : World → World
enabled w = record w { onu = record w.onu { internal_state = OnuState.enabled } }

abbrev pub announced : World → ℕ → List Message → World
announced w cap held = record w {
  onu = record w.onu {
    internal_state = OnuState.enabled;
    channel =
        buffered cap
          (held ++ onu_indication w.onu.serial_number w.onu.pon_port_id OperStatus.up ∷ []);
  };
  pon = store_onu_id w.pon w.onu.id w.onu.serial_number;
}

-- What the event leaves.
abbrev pub IsEnabled : World → ℕ → List Message → Option EventError × World → Type 0
IsEnabled w cap held (err, v) =
    (err ≡ none)
    × (v.onu.internal_state ≡ OnuState.enabled)
    × ((i : ℕ) (sn : Sn)
        → is_onu_id_allocated w.pon i ≡ some sn
        → is_onu_id_allocated v.pon i ≡ some sn)
    × (is_onu_id_allocated w.pon w.onu.id ≡ none
        → (is_onu_id_allocated v.pon w.onu.id ≡ some w.onu.serial_number)
          × (v.onu.channel
              ≡ buffered cap (
                  held ++ onu_indication w.onu.serial_number w.onu.pon_port_id OperStatus.up ∷ [])))
    × ((sn : Sn)
        → is_onu_id_allocated w.pon w.onu.id ≡ some sn
        → (v.onu.channel ≡ w.onu.channel) × (v.pon ≡ w.pon))

module _ (engine : Engine) (stream : ℕ) (is_mock : Bool) (w : World) (cap : ℕ)
    (held : List Message) where
  pub enable_free :
      next w.onu.internal_state OnuTx.enable ≡ moves OnuState.enabled
      → w.onu.channel ≡ buffered cap held
      → length held < cap
      → is_onu_id_allocated w.pon w.onu.id ≡ none
      → fire_onu engine stream is_mock OnuTx.enable w ≡ ok (none, announced w cap held)
  unfolding fire_onu enter_onu enter_enabled
  enable_free m h room free = ground (
    arith,
    onu_event-next engine w.onu.internal_state OnuTx.enable,
    tell_lem (onu_indication w.onu.serial_number w.onu.pon_port_id OperStatus.up)
        (record (enabled w) { pon = store_onu_id w.pon w.onu.id w.onu.serial_number }) cap held h
        room,
  )

  enable_taken :
      (sn : Sn)
      → next w.onu.internal_state OnuTx.enable ≡ moves OnuState.enabled
      → is_onu_id_allocated w.pon w.onu.id ≡ some sn
      → fire_onu engine stream is_mock OnuTx.enable w ≡ ok (none, enabled w)
  unfolding fire_onu enter_onu enter_enabled
  enable_taken sn m taken = ground (arith, onu_event-next engine w.onu.internal_state OnuTx.enable)

  -- An ONU that may be enabled, with room in its channel, becomes enabled. No ONU id changes hands; a
  -- free id becomes the ONU's, and its UP indication goes out; if the id is in use the ONU is enabled all
  -- the same, but without an indication and without owning its id.
  pub fire_onu-IsEnabled :
      next w.onu.internal_state OnuTx.enable ≡ moves OnuState.enabled
      → w.onu.channel ≡ buffered cap held
      → length held < cap
      → Yields (IsEnabled w cap held) (fire_onu engine stream is_mock OnuTx.enable w)
  fire_onu-IsEnabled m h room = elim (Option-cases (is_onu_id_allocated w.pon w.onu.id)) [
    | inl free ↦ rw (enable_free m h room free) (
      refl,
      refl,
      (λ i sn t. ground (arith, onu_id-store_onu_id w.pon w.onu.id w.onu.serial_number i)),
      (λ f.
          (ground (arith, onu_id-store_onu_id w.pon w.onu.id w.onu.serial_number w.onu.id), refl)),
      λ sn t. ground arith,
    )
    | inr (sn, taken) ↦
        rw (enable_taken sn m taken)
          (refl, refl, (λ i s t. t), (λ f. ground arith), λ s t. (refl, refl))
  ]
