-- ===== src/Olt/Exclusive/Requests.antt =====
-- Requests about ONUs and ports keep GEM ports and alloc ids exclusive (internal/bbsim/devices/olt.go).
use g_simulator.Prelude.{false, ℕ, Bool, List, [], ◌∷◌, Option}
use g_simulator.Go.{
  Result, ok, ◌>>=◌, deref, send, Ensures, Ensures-bind, Ensures-any, Ensures-if, Ensures-option,
}
use g_simulator.Fsm.{Engine}
use g_simulator.Messages.{OperStatus, OnuPacket}
use g_simulator.Omci.Packet.{OmciMessage}
use g_simulator.Olt.Machines.{PonState}
use g_simulator.Olt.Ids.{activate_ids}
use g_simulator.Olt.Ids.Exclusive.{IsExclusive, activate_ids-IsExclusive}
use g_simulator.Olt.State.{
  los_indication, is_disabled_state, olt_indication, pon_indication, PonPort, OltDevice, OltMessage,
  get_pon_by_id, get_onu_by_id,
}
use g_simulator.Olt.Flows.{with_onu}
use g_simulator.Olt.Flows.Exclusive.{HasExclusiveIds}
use g_simulator.Olt.Requests.{
  has_interface, interface_id_to_port_no, same_pon_state, Interface, tell_olt, activate_onu,
  delete_onu, omci_msg_out, onu_packet_out_olt, tell_pons, disable_olt, reenable_olt, switch_pon_if,
  set_olt_alarm, at_pon,
}

-- A do block that ends in an update that leaves the ids alone.
pub after_any :
    {A : Type 0} (r : Result A) (f : A → Result OltDevice)
    → ((a : A) → Ensures HasExclusiveIds (f a))
    → Ensures HasExclusiveIds (r >>= f)
after_any r f k = Ensures-bind (λ _. Unit {0}) HasExclusiveIds r f (Ensures-any r) (λ a _. k a)

pub tell_olt-HasExclusiveIds :
    (m : OltMessage) (o : OltDevice) → HasExclusiveIds o → Ensures HasExclusiveIds (tell_olt m o)
unfolding tell_olt
tell_olt-HasExclusiveIds m o x =
    after_any (send o.channel m) _ λ c. record { gems = x.gems; allocs = x.allocs }

pub tell_pons-HasExclusiveIds :
    (s : PonState) (status : OperStatus) (ps : List PonPort) (o : OltDevice)
    → HasExclusiveIds o
    → Ensures HasExclusiveIds (tell_pons s status ps o)
unfolding tell_pons
tell_pons-HasExclusiveIds s status [] o x = x
tell_pons-HasExclusiveIds s status (p ∷ ps) o x =
    Ensures-bind HasExclusiveIds HasExclusiveIds _ _
      (Ensures-if HasExclusiveIds (same_pon_state p.internal_state s) _ (ok o)
        (λ _. tell_olt-HasExclusiveIds (pon_indication status p.id) o x) (λ _. x))
      (λ o' x'. tell_pons-HasExclusiveIds s status ps o' x')

module _ (engine : Engine) (stream : ℕ) (is_mock : Bool) where
  pub activate_onu-HasExclusiveIds :
      (i n : ℕ) (vs : List ℕ) (o : OltDevice)
      → HasExclusiveIds o
      → Ensures HasExclusiveIds (activate_onu engine stream is_mock i n vs o)
  unfolding activate_onu
  activate_onu-HasExclusiveIds i n vs o x =
      Ensures-bind IsExclusive HasExclusiveIds (activate_ids i n o.alloc_ids) _
        (activate_ids-IsExclusive i n o.alloc_ids x.allocs)
        λ allocs xa.
          Ensures-bind IsExclusive HasExclusiveIds (activate_ids i n o.gem_port_ids) _
            (activate_ids-IsExclusive i n o.gem_port_ids x.gems)
            λ gems xg. after_any (at_pon i _ o.pons) _ λ q. record { gems = xg; allocs = xa }

  pub delete_onu-HasExclusiveIds :
      (i n : ℕ) (o : OltDevice)
      → HasExclusiveIds o
      → Ensures HasExclusiveIds (delete_onu engine stream is_mock i n o)
  unfolding delete_onu
  delete_onu-HasExclusiveIds i n o x =
      after_any (at_pon i _ o.pons) _ λ q. record { gems = x.gems; allocs = x.allocs }

pub omci_msg_out-HasExclusiveIds :
    (i n : ℕ) (parsed : Option OmciMessage) (o : OltDevice)
    → HasExclusiveIds o
    → Ensures (λ q. HasExclusiveIds q.1) (omci_msg_out i n parsed o)
unfolding omci_msg_out
omci_msg_out-HasExclusiveIds i n parsed o x =
    Ensures-option (λ q. HasExclusiveIds q.1) (get_pon_by_id i o) _ _ x
      λ pon.
        Ensures-option (λ q. HasExclusiveIds q.1) (get_onu_by_id n pon) _ _ x
          λ u.
            Ensures-option (λ q. HasExclusiveIds q.1) parsed _ _ x
              λ msg.
                Ensures-if (λ q. HasExclusiveIds q.1) (is_disabled_state u.internal_state) _ _
                  (λ _. x)
                  λ _.
                    Ensures-bind (λ _. Unit {0}) (λ q. HasExclusiveIds q.1) (with_onu i n _ o.pons)
                      _ (Ensures-any _) λ pons _. record { gems = x.gems; allocs = x.allocs }

pub onu_packet_out-HasExclusiveIds :
    (i n : ℕ) (read : Option OnuPacket) (o : OltDevice)
    → HasExclusiveIds o
    → Ensures HasExclusiveIds (onu_packet_out_olt i n read o)
unfolding onu_packet_out_olt
onu_packet_out-HasExclusiveIds i n read o x = after_any (deref (get_pon_by_id i o)) _ λ pon.
    after_any (deref (get_onu_by_id n pon)) _ λ u.
      Ensures-option HasExclusiveIds read _ _ x λ packet.
        after_any (with_onu i n _ o.pons) _ λ pons. record { gems = x.gems; allocs = x.allocs }

pub disable_olt-HasExclusiveIds :
    (o : OltDevice) → HasExclusiveIds o → Ensures HasExclusiveIds (disable_olt o)
unfolding disable_olt
disable_olt-HasExclusiveIds o x =
    Ensures-bind HasExclusiveIds HasExclusiveIds _ _
      (tell_pons-HasExclusiveIds PonState.enabled OperStatus.down o.pons o x)
      (λ o' x'. tell_olt-HasExclusiveIds (olt_indication OperStatus.down) o' x')

pub reenable_olt-HasExclusiveIds :
    (o : OltDevice) → HasExclusiveIds o → Ensures HasExclusiveIds (reenable_olt o)
unfolding reenable_olt
reenable_olt-HasExclusiveIds o x =
    Ensures-bind HasExclusiveIds HasExclusiveIds _ _
      (tell_olt-HasExclusiveIds (olt_indication OperStatus.up) o x)
      (λ o' x'. tell_pons-HasExclusiveIds PonState.disabled OperStatus.up o'.pons o' x')

pub switch_pon_if-HasExclusiveIds :
    (status : OperStatus) (i : ℕ) (o : OltDevice)
    → HasExclusiveIds o
    → Ensures HasExclusiveIds (switch_pon_if status i o)
unfolding switch_pon_if
switch_pon_if-HasExclusiveIds status i o x =
    Ensures-bind HasExclusiveIds HasExclusiveIds _ _
      (tell_olt-HasExclusiveIds (pon_indication status i) o x)
      (λ o' x'.
        after_any (deref (get_pon_by_id i o')) _
          λ pon. record { gems = x'.gems; allocs = x'.allocs })

pub set_olt_alarm-HasExclusiveIds :
    (i : ℕ) (kind : Interface) (raised : Bool) (o : OltDevice)
    → HasExclusiveIds o
    → Ensures (λ q. HasExclusiveIds q.1) (set_olt_alarm i kind raised o)
unfolding set_olt_alarm
set_olt_alarm-HasExclusiveIds i kind raised o x =
    Ensures-if (λ (q : Bool × OltDevice). HasExclusiveIds q.1) (has_interface kind i o) _
      (ok (false, o))
      (λ _.
        Ensures-bind HasExclusiveIds (λ (q : Bool × OltDevice). HasExclusiveIds q.1)
          (tell_olt (los_indication raised (interface_id_to_port_no kind i)) o) _
          (tell_olt-HasExclusiveIds (los_indication raised (interface_id_to_port_no kind i)) o x)
          (λ o' x'. x'))
      (λ _. x)
