-- ===== src/Scenarios/Onus.antt =====
-- An ONU that goes down and comes back, and its counters.
use Prim.Native.String.{String}
use g_simulator.Prelude.{ℕ, ◌≡◌, refl, true, [], Option, none, arith}
use g_simulator.Go.{ok, Yields}
use g_simulator.Go.{Safely}
use g_simulator.Prelude.{List, ◌∷◌}
use g_simulator.Onu.Enabling.{IsEnabled, fire_onu-IsEnabled}
use g_simulator.Onu.Invariant.{IsConsistent, fire_all, fire_all-IsConsistent}
use g_simulator.Fsm.{table_engine}
use g_simulator.Omci.Responses.{alarm_key_eq}
use g_simulator.Onu.Machine.{OnuState, OnuTx, onu_event-next}
use g_simulator.Onu.State.{World}
use g_simulator.Onu.Events.{cleanup_onu_state, fire_onu}
use g_simulator.Onu.Power.{reboot}
use g_simulator.Onu.Release.{Released, pon_disables, fire_onu-Released}
use g_simulator.Onu.Reboot.{CanReboot, IsRebooted, reboot-IsRebooted}
use g_simulator.Scenarios.Values.{sn1, onu1, pon0, world1}
use g_simulator.Scenarios.Ports.{uni0-IsUniWellformed, pots0-IsPotsWellformed}

abbrev no_atoi : String → Option ℕ
no_atoi s = none

world1-CanReboot : CanReboot table_engine 7 true no_atoi world1
world1-CanReboot = record {
  may_disable = refl;
  listens = record { taken = []; is_received = refl };
  room = record { cap = 2048; held = []; is_buffered = refl; room = omega arith };
  ports = record { unis = (uni0-IsUniWellformed, tt); pots = (pots0-IsPotsWellformed, tt) };
}

reboot-IsRebooted_example :
    Yields
      (IsRebooted table_engine 7 true no_atoi world1)
      (reboot table_engine 7 true no_atoi world1)
reboot-IsRebooted_example = reboot-IsRebooted table_engine 7 true no_atoi world1 world1-CanReboot

abbrev pon_disabled : World
pon_disabled =
    cleanup_onu_state
      (record world1 { onu = record onu1 { internal_state = OnuState.pon_disabled } })

world1-pon_disable : fire_onu table_engine 7 true OnuTx.pon_disable world1 ≡ ok (none, pon_disabled)
unfolding fire_onu
world1-pon_disable = ground (arith, onu_event-next table_engine OnuState.enabled OnuTx.pon_disable)

fire_onu-Released_example : Released sn1 1 pon0 pon_disabled.pon
fire_onu-Released_example =
    fire_onu-Released table_engine 7 true OnuTx.pon_disable world1 pon_disabled pon_disables
      world1-pon_disable

world1-IsConsistent : IsConsistent world1.onu
world1-IsConsistent = record {
  oper = refl;
  has_channel = tt;
  ports = record { unis = (uni0-IsUniWellformed, tt); pots = (pots0-IsPotsWellformed, tt) };
}

abbrev a_life : List OnuTx
a_life = OnuTx.pon_disable ∷ OnuTx.disable ∷ OnuTx.initialize ∷ OnuTx.discover ∷ OnuTx.enable ∷ []

fire_all-IsConsistent_example :
    Safely (λ (v : World). IsConsistent v.onu) (fire_all table_engine 7 true a_life world1)
fire_all-IsConsistent_example =
    fire_all-IsConsistent table_engine 7 true a_life world1 world1-IsConsistent

-- An ONU that was discovered, with an id that another one has.
abbrev duplicate : World
duplicate = record world1 { onu = record onu1 { id = 2; internal_state = OnuState.discovered } }

fire_onu-IsEnabled_example :
    Yields (IsEnabled duplicate 2048 []) (fire_onu table_engine 7 true OnuTx.enable duplicate)
fire_onu-IsEnabled_example =
    fire_onu-IsEnabled table_engine 7 true duplicate 2048 [] refl refl (omega arith)
