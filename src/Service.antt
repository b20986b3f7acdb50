-- ===== src/Service.antt =====
-- A service of a UNI port and its machines (internal/bbsim/devices/services.go).
pub mod Machines
pub mod Wellformed
pub mod Starts
use Prim.Native.String.{String}
use text.Mathlib.Text.{◌==◌ as str_eq}
use g_simulator.Prelude.{
  ℕ, Bool, true, false, not, ◌&&◌, ◌||◌, List, [], Option, none, some, ◌==◌, if◌then◌else◌,
}
use g_simulator.Go.{Result, ok, panics, Chan, unmade, received, ◌>>=◌, send, close}
use g_simulator.Fsm.{Engine, refused, stays, moves, EventError, invalid_event, no_transition}
use g_simulator.Messages.{
  ServiceMessage, start_eapol, start_dhcp, igmp_membership_report_v2, igmp_leave_group,
  igmp_membership_report_v3,
}
use Machines.Internal.{ServiceState, ServiceTx, service_event}
use Machines.Eapol.{EapolState, EapolTx, eapol_event}
use Machines.Dhcp.{DhcpState, DhcpTx, dhcp_event}
use Machines.Igmp.{IgmpState, IgmpTx, igmp_event}

-- The gRPC stream and the packets are values of other libraries, known here by a number.
pub record Service : Type 0 where
  pub id : ℕ
  pub name : String
  pub hw_address : List ℕ
  pub c_tag : ℕ
  pub s_tag : ℕ
  pub needs_eapol : Bool
  pub needs_dhcp : Bool
  pub needs_igmp : Bool
  pub needs_pppoe : Bool
  pub technology_profile_id : ℕ
  pub uni_tag_match : ℕ
  pub configure_mac_address : Bool
  pub enable_mac_learning : Bool
  pub us_pon_c_tag_priority : ℕ
  pub us_pon_s_tag_priority : ℕ
  pub ds_pon_c_tag_priority : ℕ
  pub ds_pon_s_tag_priority : ℕ
  pub gem_port : ℕ
  pub internal_state : ServiceState
  pub eapol_state : EapolState
  pub dhcp_state : DhcpState
  pub igmp_state : IgmpState
  pub channel : Chan ServiceMessage
  pub packet_ch : Chan ℕ
  pub stream : Option ℕ

abbrev pub fttb_dpu_mgmt_service_name : String
fttb_dpu_mgmt_service_name = "DPU_MGMT_TRAFFIC"

unfoldable pub update_stream : ℕ → Service → Service
update_stream stream s = record s { stream = some stream }

-- The `enter_` callbacks of InternalState; the arguments are those of `Event`.
enter : ServiceState → Option ℕ → Service → Result Service
unfolding update_stream
enter ServiceState.initialized none s = panics
enter ServiceState.initialized (some stream) s =
    ok (record (update_stream stream s) { packet_ch = received []; channel = received [] })
enter ServiceState.disabled args s = do
  let reset = record s { eapol_state = EapolState.created; dhcp_state = DhcpState.created }
  _ ← close reset.packet_ch
  _ ← close reset.channel
  ok (record reset { packet_ch = unmade; channel = unmade })
enter ServiceState.created args s = ok s

-- `before_start_auth`.
before_eapol : EapolTx → Service → Result Service
before_eapol EapolTx.start_auth s = do c ← send s.channel start_eapol; ok (record s { channel = c })
before_eapol _ s = ok s

-- `before_start_dhcp`.
before_dhcp : DhcpTx → Service → Result Service
before_dhcp DhcpTx.start_dhcp s = do c ← send s.channel start_dhcp; ok (record s { channel = c })
before_dhcp _ s = ok s

-- The callbacks of IGMPState, which run after the event; the group is that of `e.Args[0]`.
after_igmp : IgmpTx → List ℕ → Service → Result Service
after_igmp IgmpTx.igmp_join_start group s = do
  c ← send s.channel (igmp_membership_report_v2 group)
  ok (record s { channel = c })
after_igmp IgmpTx.igmp_leave group s = do
  c ← send s.channel (igmp_leave_group group)
  ok (record s { channel = c })
after_igmp IgmpTx.igmp_join_startv3 group s = do
  c ← send s.channel (igmp_membership_report_v3 group)
  ok (record s { channel = c })
after_igmp IgmpTx.fail_igmp_join group s = ok s

-- The test by which HandleDhcp recognises a flow of this service.
abbrev pub is_dhcp_flow_for : Service → ℕ → ℕ → Bool
is_dhcp_flow_for s o_pbit o_vid =
    let mgmt = str_eq s.name fttb_dpu_mgmt_service_name in
    let compare_tag = if mgmt then s.s_tag else s.c_tag in
    let compare_pbits = if mgmt then s.us_pon_s_tag_priority else s.us_pon_c_tag_priority in
    not (not (compare_tag == o_vid) || (not (compare_pbits == o_pbit) && not (o_pbit == 255)))

-- `_ = machine.Event(...)`: the error is dropped, or only logged.
abbrev pub drop_error : Result (Option EventError × Service) → Result Service
drop_error r = do (_, t) ← r; ok t

module _ (engine : Engine) where
  -- `InternalState.Event(tx, args...)`; the callers only log its error.
  fire_internal : ServiceTx → Option ℕ → Service → Result Service
  unfolding enter
  fire_internal tx args s = elim (service_event engine s.internal_state tx) [
    | refused ↦ ok s
    | stays ↦ ok s
    | moves d ↦ enter d args (record s { internal_state = d })
  ]

  unfoldable pub initialize : ℕ → Service → Result Service
  unfolding fire_internal
  initialize stream s = fire_internal ServiceTx.initialize (some stream) s

  unfoldable pub disable : Service → Result Service
  unfolding fire_internal
  disable s = fire_internal ServiceTx.disable none s

  -- `EapolState.Event(tx)`.
  unfoldable pub fire_eapol : EapolTx → Service → Result (Option EventError × Service)
  unfolding before_eapol
  fire_eapol tx s = elim (eapol_event engine s.eapol_state tx) [
    | refused ↦ ok (some invalid_event, s)
    | stays ↦ do t ← before_eapol tx s; ok (some no_transition, t)
    | moves d ↦ do t ← before_eapol tx s; ok (none, record t { eapol_state = d })
  ]

  -- `DHCPState.Event(tx)`.
  unfoldable pub fire_dhcp : DhcpTx → Service → Result (Option EventError × Service)
  unfolding before_dhcp
  fire_dhcp tx s = elim (dhcp_event engine s.dhcp_state tx) [
    | refused ↦ ok (some invalid_event, s)
    | stays ↦ do t ← before_dhcp tx s; ok (some no_transition, t)
    | moves d ↦ do t ← before_dhcp tx s; ok (none, record t { dhcp_state = d })
  ]

  -- `IGMPState.Event(tx, IgmpMessage{group})`.
  unfoldable pub fire_igmp : IgmpTx → List ℕ → Service → Result (Option EventError × Service)
  unfolding after_igmp
  fire_igmp tx group s = elim (igmp_event engine s.igmp_state tx) [
    | refused ↦ ok (some invalid_event, s)
    | stays ↦ do t ← after_igmp tx group s; ok (some no_transition, t)
    | moves d ↦ do t ← after_igmp tx group (record s { igmp_state = d }); ok (none, t)
  ]

  -- HandleAuth.
  unfoldable pub handle_auth : Service → Result Service
  handle_auth s = if not s.needs_eapol then ok s else drop_error (fire_eapol EapolTx.start_auth s)

  -- HandleDhcp.
  unfoldable pub handle_dhcp : ℕ → ℕ → Service → Result Service
  handle_dhcp o_pbit o_vid s =
      if not (is_dhcp_flow_for s o_pbit o_vid)
      then ok s
      else if not s.needs_dhcp
      then ok s
      else drop_error (fire_dhcp DhcpTx.start_dhcp s)

  -- What the timer of `enter_auth_started` does while EAPOL has not succeeded.
  reset_eapol : Bool → Service → Result Service
  reset_eapol auth_retry s = do
    t ← drop_error (fire_eapol EapolTx.fail_auth s)
    if auth_retry then drop_error (fire_eapol EapolTx.start_auth t) else ok t

  -- That timer runs out, with `AuthRetry` as configured.
  unfoldable pub eapol_timeout : Bool → Service → Result Service
  unfolding reset_eapol
  eapol_timeout auth_retry s = elim s.eapol_state [
    | EapolState.eap_response_success_received ↦ ok s
    | _ ↦ reset_eapol auth_retry s
  ]

  -- What the timer of `enter_dhcp_started` does while DHCP has not succeeded.
  reset_dhcp : Bool → Service → Result Service
  reset_dhcp dhcp_retry s = do
    t ← drop_error (fire_dhcp DhcpTx.fail_dhcp s)
    if dhcp_retry then drop_error (fire_dhcp DhcpTx.start_dhcp t) else ok t

  -- That timer runs out, with `DhcpRetry` as configured.
  unfoldable pub dhcp_timeout : Bool → Service → Result Service
  unfolding reset_dhcp
  dhcp_timeout dhcp_retry s = elim s.dhcp_state [
    | DhcpState.dhcp_ack_received ↦ ok s
    | _ ↦ reset_dhcp dhcp_retry s
  ]
