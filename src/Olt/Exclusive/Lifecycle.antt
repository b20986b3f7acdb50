-- ===== src/Olt/Exclusive/Lifecycle.antt =====
-- The life of the OLT keeps GEM ports and alloc ids exclusive (internal/bbsim/devices/olt.go: InitOlt,
-- clearAllResources, RestartOLT, processOltMessages).
use g_simulator.Prelude.{false, suc, ℕ, Bool, List, [], ◌∷◌}
use g_simulator.Go.{ok, close, Ensures, Ensures-bind, Ensures-any, Ensures-if}
use g_simulator.Fsm.{outcome_intro, Engine}
use g_simulator.Oper.{oper_event, OperTx}
use g_simulator.Olt.Machines.{OltState, OltTx, olt_event}
use g_simulator.Olt.Ids.Exclusive.{renewed-IsExclusive, empty-IsExclusive}
use g_simulator.Olt.State.{PonPort, OltDevice, OltMessage, Indication}
use g_simulator.Olt.Flows.Exclusive.{HasExclusiveIds}
use g_simulator.Olt.Ports.{oper_tx, switch_nni_in, switch_pon_in}
use g_simulator.Olt.Lifecycle.{
  init_ids, first_nni_down, init_olt, clear_all_resources, enter_olt, fire_olt, fire_olt_oper,
  olt_tx, handle_olt_message, disable_onus, restart_olt,
}
use g_simulator.Olt.Exclusive.Requests.{after_any}

pub init_ids-HasExclusiveIds :
    (k : ℕ) (ps : List PonPort) (o : OltDevice)
    → HasExclusiveIds o
    → HasExclusiveIds (init_ids k ps o)
unfolding init_ids
init_ids-HasExclusiveIds k [] o x = x
init_ids-HasExclusiveIds k (p ∷ ps) o x = init_ids-HasExclusiveIds (suc k) ps _ (record {
  gems = renewed-IsExclusive k o.gem_port_ids x.gems;
  allocs = renewed-IsExclusive k o.alloc_ids x.allocs;
})

pub init_olt-HasExclusiveIds :
    (o : OltDevice) → HasExclusiveIds o → Ensures HasExclusiveIds (init_olt o)
unfolding init_olt
init_olt-HasExclusiveIds o x =
    after_any (first_nni_down o.nnis) _
      λ nnis. init_ids-HasExclusiveIds 0 o.pons _ (record { gems = x.gems; allocs = x.allocs })

pub enter_olt-HasExclusiveIds :
    (d : OltState) (o : OltDevice) → HasExclusiveIds o → Ensures HasExclusiveIds (enter_olt d o)
unfolding enter_olt clear_all_resources
enter_olt-HasExclusiveIds OltState.initialized o x = init_olt-HasExclusiveIds o x
enter_olt-HasExclusiveIds OltState.deleted o x = record {
  gems = empty-IsExclusive;
  allocs = empty-IsExclusive;
}
enter_olt-HasExclusiveIds OltState.created o x = x
enter_olt-HasExclusiveIds OltState.enabled o x = x
enter_olt-HasExclusiveIds OltState.disabled o x = x

module _ (engine : Engine) (stream : ℕ) (is_mock : Bool) where
  pub fire_olt-HasExclusiveIds :
      (tx : OltTx) (o : OltDevice)
      → HasExclusiveIds o
      → Ensures (λ q. HasExclusiveIds q.1) (fire_olt engine stream is_mock tx o)
  unfolding fire_olt
  fire_olt-HasExclusiveIds tx o x =
      outcome_intro (Ensures (λ q. HasExclusiveIds q.1)) (olt_event engine o.internal_state tx) _ _
        _ x x
        λ d.
          Ensures-bind HasExclusiveIds (λ q. HasExclusiveIds q.1) (enter_olt d _) _
            (enter_olt-HasExclusiveIds d _ (record { gems = x.gems; allocs = x.allocs }))
            (λ o' x'. x')

  pub restart_olt-HasExclusiveIds :
      (o : OltDevice)
      → HasExclusiveIds o
      → Ensures (λ q. HasExclusiveIds q.1) (restart_olt engine stream is_mock o)
  unfolding restart_olt
  restart_olt-HasExclusiveIds o x =
      Ensures-bind (λ q. HasExclusiveIds q.1) (λ q. HasExclusiveIds q.1)
        (fire_olt engine stream is_mock OltTx.delete _) _
        (fire_olt-HasExclusiveIds OltTx.delete _ (record { gems = x.gems; allocs = x.allocs }))
        λ (deleted, o1) x1.
          Ensures-if (λ q. HasExclusiveIds q.1) deleted _ (ok (false, o1))
            (λ _.
              Ensures-bind (λ _. Unit {0}) (λ q. HasExclusiveIds q.1)
                (disable_onus engine stream is_mock o1.pons) _ (Ensures-any _)
                λ (pons, ts) _.
                  Ensures-bind (λ _. Unit {0}) (λ q. HasExclusiveIds q.1) (close o1.channel) _
                    (Ensures-any _)
                    λ c _.
                      fire_olt-HasExclusiveIds OltTx.initialize _
                        (record { gems = x1.gems; allocs = x1.allocs }))
            (λ _. x1)

  pub fire_olt_oper-HasExclusiveIds :
      (tx : OperTx) (o : OltDevice)
      → HasExclusiveIds o
      → HasExclusiveIds (fire_olt_oper engine stream is_mock tx o)
  unfolding fire_olt_oper
  fire_olt_oper-HasExclusiveIds tx o x =
      outcome_intro HasExclusiveIds (oper_event engine o.oper_state tx) _ _ _ x x
        (λ d. record { gems = x.gems; allocs = x.allocs })

  pub message-HasExclusiveIds :
      (accepts : Indication → Bool) (m : OltMessage) (o : OltDevice)
      → HasExclusiveIds o
      → Ensures HasExclusiveIds (handle_olt_message engine stream is_mock accepts m o)
  unfolding handle_olt_message
  message-HasExclusiveIds accepts (OltMessage.olt_indication status) o x =
      Ensures-bind (λ q. HasExclusiveIds q.1) HasExclusiveIds
        (fire_olt engine stream is_mock (olt_tx status) o) _
        (fire_olt-HasExclusiveIds (olt_tx status) o x)
        λ (b, o1) x1.
          let x2 = fire_olt_oper-HasExclusiveIds (oper_tx status) o1 x1 in
          record { gems = x2.gems; allocs = x2.allocs }
  message-HasExclusiveIds accepts (OltMessage.nni_indication status id) o x =
      after_any (switch_nni_in engine stream is_mock status id o.nnis) _
        λ q. record { gems = x.gems; allocs = x.allocs }
  message-HasExclusiveIds accepts (OltMessage.pon_indication status id) o x =
      after_any
        (switch_pon_in engine stream is_mock accepts status o.controlled_activation id o.pons) _
        λ q. record { gems = x.gems; allocs = x.allocs }
  message-HasExclusiveIds accepts (OltMessage.alarm_indication a) o x = record {
    gems = x.gems;
    allocs = x.allocs;
  }
  message-HasExclusiveIds accepts (OltMessage.los_indication raised port) o x = record {
    gems = x.gems;
    allocs = x.allocs;
  }
