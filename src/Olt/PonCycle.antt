-- ===== src/Olt/PonCycle.antt =====
-- A PON port that is disabled and enabled again (internal/bbsim/devices/pon.go, the callbacks
-- `enter_disabled` and `enter_enabled` of CreatePonPort).
pub mod Down
mod Back
use g_simulator.Prelude.{
  ℕ, ◌≡◌, ◌≢◌, refl, ap, sym, subst, ◌∙◌, Bool, false, List, [], ◌∷◌, ◌++◌, Option, none, some, All,
  map, arith, ◌==◌, if◌then◌else◌, Option-cases, inl, inr,
}
use g_simulator.Go.{Result, ok, buffered, ◌>>=◌, Yields, Yields-bind, Yields-map}
use g_simulator.Fsm.{Engine, moves}
use g_simulator.Messages.{Sn, same_sn}
use g_simulator.Pon.{Resources, is_onu_id_allocated, is_gem_port_allocated, store_onu_id}
use g_simulator.Pon.Ownership.{onu_id-store_onu_id}
use g_simulator.Onu.Machine.{OnuState, OnuTx, next, onu_event-next}
use g_simulator.Onu.State.{Onu, World, Task}
use g_simulator.Onu.Events.{cleanup_onu_state, enter_onu, fire_onu}
use g_simulator.Onu.Down.{HasRoom}
use g_simulator.Onu.Enabling.{announced, enable_free}
use g_simulator.Onu.Release.{cleanup-Released}
use g_simulator.Olt.Machines.{next_pon, PonState, PonTx, pon_event, pon_event-next}
use g_simulator.Olt.State.{PonPort, Mode}
use g_simulator.Olt.Requests.{Changed, tagged, world_of, on_one, fire}
use g_simulator.Olt.Ports.{
  on_each, bring_back_from, bring_back, take_down_from, take_down, enter_pon, enter_pon_enabled,
  fire_pon,
}
use g_simulator.Olt.PonCycle.Down.{
  IsRunning, Distinct, down, freed, taken_down, take_all, freed-all, freed-gem,
}
use g_simulator.Olt.PonCycle.Back.{IsBack, bring_all}

module _ (engine : Engine) (stream : ℕ) (is_mock : Bool) where
  -- Both events one after the other; the goroutines started are dropped.
  abbrev pub cycle : Mode → PonPort → Result PonPort
  cycle mode p = do
    (p1, _) ← fire_pon engine stream is_mock PonTx.disable mode p
    (p2, _) ← fire_pon engine stream is_mock PonTx.enable mode p1
    ok p2

  -- The modes in which the ONUs of a PON port are enabled with it.
  abbrev pub EnablesOnus : Mode → Type 0
  EnablesOnus Mode.default_mode = Unit
  EnablesOnus Mode.only_pon = Unit
  EnablesOnus _ = ⊥

  enters :
      (mode : Mode) (r : Resources) (os : List Onu)
      → EnablesOnus mode
      → enter_pon engine stream is_mock PonState.disabled PonState.enabled mode r os
        ≡ on_each (bring_back engine stream is_mock) r os
  unfolding enter_pon enter_pon_enabled
  enters Mode.default_mode r os m = refl
  enters Mode.only_pon r os m = refl
  enters Mode.only_onu r os m = absurd m
  enters Mode.both r os m = absurd m

  fire_pon-moves :
      (tx : PonTx) (mode : Mode) (p : PonPort) (d : PonState)
      → next_pon p.internal_state tx ≡ moves d
      → fire_pon engine stream is_mock tx mode p ≡ (
          enter_pon engine stream is_mock p.internal_state d mode p.resources p.onus
          >>= λ (c : Changed).
              ok (record p { internal_state = d; resources = c.0; onus = c.1 }, c.2))
  unfolding fire_pon
  fire_pon-moves tx mode p d e = ground (arith, pon_event-next engine p.internal_state tx)

  disabled_lem :
      (mode : Mode) (p : PonPort)
      → p.internal_state ≡ PonState.enabled
      → All IsRunning p.onus
      → fire_pon engine stream is_mock PonTx.disable mode p ≡ ok ((taken_down p), [])
  unfolding enter_pon
  disabled_lem mode p s h =
      fire_pon-moves PonTx.disable mode p PonState.disabled (rw s refl)
      ∙ rw (take_all engine stream is_mock p.resources p.onus h) refl

  -- What disabling and enabling leaves of a PON port.
  pub record IsCycled (p q : PonPort) : Type 0 where
    pub port : q.internal_state ≡ PonState.enabled
    pub enabled : All (λ (o : Onu). o.internal_state ≡ OnuState.enabled) q.onus
    pub ids : map (λ (o : Onu). o.id) q.onus ≡ map (λ (o : Onu). o.id) p.onus
    pub owned :
        All (λ (o : Onu). is_onu_id_allocated q.resources o.id ≡ some o.serial_number) p.onus
    pub gems :
        (g : ℕ) (sn : Sn)
        → is_gem_port_allocated q.resources g ≡ some sn
        → (is_gem_port_allocated p.resources g ≡ some sn)
          × All (λ (o : Onu). same_sn sn o.serial_number ≡ false) p.onus

  enabled_lem :
      (mode : Mode) (p : PonPort)
      → EnablesOnus mode
      → All IsRunning p.onus
      → Distinct p.onus
      → Yields
          (λ q. IsCycled p q.0)
          (fire_pon engine stream is_mock PonTx.enable mode ((taken_down p)))
  enabled_lem mode p m h d =
      rw (fire_pon-moves PonTx.enable mode (taken_down p) PonState.enabled refl) (
        rw (enters mode (freed p.resources p.onus) (map down p.onus) m) (
          Yields-bind (IsBack p.onus (freed p.resources p.onus))
            (λ (q : PonPort × List (Sn × Task)). IsCycled p q.0) _ _
            (bring_all engine stream is_mock (freed p.resources p.onus) p.onus h d
              (freed-all p.resources p.onus))
            λ c b. record {
              port = refl;
              enabled = b.enabled;
              ids = b.ids;
              owned = b.owned;
              gems = λ g sn e. freed-gem p.resources p.onus g sn (sym (b.gems g) ∙ e);
            }))

  -- A PON port is disabled and enabled again, in a mode that enables its ONUs with it: if each of its
  -- ONUs accepts `pon_disable` and has room for a message in its channel, and their ids are distinct,
  -- both events end, all its ONUs are enabled, have the ids that they had and own them again, and no GEM
  -- port of any of them is left; the GEM ports that are left were there before.
  pub cycle-IsCycled :
      (mode : Mode) (p : PonPort)
      → EnablesOnus mode
      → p.internal_state ≡ PonState.enabled
      → All IsRunning p.onus
      → Distinct p.onus
      → Yields (IsCycled p) (cycle mode p)
  cycle-IsCycled mode p m s h d = rw (disabled_lem mode p s h) (
      Yields-bind (λ (q : PonPort × List (Sn × Task)). IsCycled p q.0) (IsCycled p) _
        (λ (q, _). ok q) (enabled_lem mode p m h d) (λ q c. c))
