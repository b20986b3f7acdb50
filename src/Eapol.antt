-- ===== src/Eapol.antt =====
-- The EAPOL exchange of a service (internal/bbsim/responders/eapol/eapol.go, as HandlePackets and
-- HandleChannel of internal/bbsim/devices/services.go call it: with the machine `EapolState` of the
-- service and without a client).
pub mod Order
use g_simulator.Prelude.{
  ℕ, Bool, true, false, List, [], ◌∷◌, ◌++◌, Option, none, some, if◌then◌else◌, u8,
}
use g_simulator.Go.{Result, ok, panics, ◌>>=◌}
use g_simulator.Fsm.{Engine}
use g_simulator.Service.Machines.Eapol.{EapolState, EapolTx}
use g_simulator.Service.{Service, fire_eapol, drop_error}

-- What gopacket parses of a packet: the EAP layer and the type of the EAPOL layer.
pub data EapCode : Type 0 where
  request response success failure : EapCode

pub data EapType : Type 0 where
  identity otp none_type other_type : EapType

pub data EapolType : Type 0 where
  start eap_packet other : EapolType

pub record Eap : Type 0 where
  pub code : EapCode
  pub id : ℕ
  pub kind : EapType
  pub contents : List ℕ

pub record Packet : Type 0 where
  pub eap : Option Eap
  pub eapol : Option EapolType

-- What a service sends: the EAP layer that is composed, or the EAPOL start without one.
pub record Reply : Type 0 where
  pub id : ℕ
  pub length : ℕ
  pub kind : EapType
  pub type_data : List ℕ

-- The `openolt.PacketIndication` of an EAPOL packet between these addresses.
pub record PacketIn : Type 0 where
  pub mac : List ℕ
  pub reply : Option Reply
  pub intf_id : ℕ
  pub gemport_id : ℕ
  pub port_no : ℕ
  pub onu_id : ℕ
  pub uni_id : ℕ

-- Where the service is: the arguments of HandleNextPacket besides the service.
pub record Place : Type 0 where
  pub olt_id : ℕ
  pub intf_id : ℕ
  pub onu_id : ℕ
  pub uni_id : ℕ
  pub port_no : ℕ

-- A service and the packets that it has sent, oldest first.
pub record Exchange : Type 0 where
  pub service : Service
  pub sent : List PacketIn

-- createEAPIdentityResponse: the identity is "user".
abbrev pub create_eap_identity_response : ℕ → Reply
create_eap_identity_response eap_id = record {
  id = eap_id;
  length = 9;
  kind = identity;
  type_data = 0x75 ∷ 0x73 ∷ 0x65 ∷ 0x72 ∷ [];
}

-- createEAPChallengeResponse.
abbrev pub create_eap_challenge_response : ℕ → List ℕ → Reply
create_eap_challenge_response eap_id payload = record {
  id = eap_id;
  length = 22;
  kind = otp;
  type_data = payload;
}

-- `C := Contents[6:]`.
unfoldable pub challenge_of : List ℕ → Result (List ℕ)
challenge_of (_ ∷ _ ∷ _ ∷ _ ∷ _ ∷ _ ∷ rest) = ok rest
challenge_of _ = panics

-- getMD5Data: the digest of the id, "password" and the challenge.
unfoldable pub get_md5_data : (List ℕ → List ℕ) → Eap → Result (List ℕ)
unfolding challenge_of
get_md5_data md5 eap = do
  c ← challenge_of eap.contents
  ok (md5 (eap.id ∷ 0x70 ∷ 0x61 ∷ 0x73 ∷ 0x73 ∷ 0x77 ∷ 0x6f ∷ 0x72 ∷ 0x64 ∷ c))

-- `md5` is crypto/md5; `delivers`: does `stream.Send` return without error during the call?
module _ (engine : Engine) (md5 : List ℕ → List ℕ) (place : Place) (delivers : Bool) where
  -- `_ = stateMachine.Event(tx)`.
  unfoldable pub fire_machine : EapolTx → Exchange → Result Exchange
  fire_machine tx x = do
    s ← drop_error (fire_eapol engine tx x.service)
    ok (record x { service = s })

  -- createEAPOLPkt and sendEapolPktIn, which always gives the UNI 0.
  unfoldable pub packet_in : Reply → Service → PacketIn
  packet_in reply s = record {
    mac =
        0x2e
        ∷ u8 place.olt_id
        ∷ u8 place.intf_id
        ∷ u8 place.onu_id
        ∷ u8 place.uni_id
        ∷ u8 s.id
        ∷ [];
    reply = some reply;
    intf_id = place.intf_id;
    gemport_id = s.gem_port;
    port_no = place.port_no;
    onu_id = place.onu_id;
    uni_id = 0;
  }

  -- A reply is sent and the machine moves on, or fails.
  unfoldable pub respond : Reply → EapolTx → Exchange → Result Exchange
  unfolding packet_in
  respond reply tx x =
      if delivers
      then fire_machine tx (record x { sent = x.sent ++ packet_in reply x.service ∷ [] })
      else fire_machine EapolTx.fail_auth x

  -- A packet in the wrong state.
  unfoldable pub drop_packet : Exchange → Result Exchange
  drop_packet x = elim x.service.eapol_state [
    | EapolState.auth_failed ↦ ok x
    | EapolState.eap_response_success_received ↦ ok x
    | _ ↦ fire_machine EapolTx.fail_auth x
  ]

  unfoldable pub handle_identity_request : Eap → Exchange → Result Exchange
  unfolding respond drop_packet
  handle_identity_request eap x = elim x.service.eapol_state [
    | EapolState.eap_start_sent ↦
        respond (create_eap_identity_response eap.id) EapolTx.response_identity_sent x
    | _ ↦ drop_packet x
  ]

  unfoldable pub handle_challenge_request : Eap → Exchange → Result Exchange
  unfolding respond drop_packet
  handle_challenge_request eap x = elim x.service.eapol_state [
    | EapolState.eap_response_identity_sent ↦ do
      digest ← get_md5_data md5 eap
      respond (create_eap_challenge_response eap.id (0x10 ∷ digest)) EapolTx.response_challenge_sent
          x
    | _ ↦ drop_packet x
  ]

  unfoldable pub handle_success : Exchange → Result Exchange
  unfolding drop_packet
  handle_success x = elim x.service.eapol_state [
    | EapolState.eap_response_challenge_sent ↦ fire_machine EapolTx.response_success_received x
    | _ ↦ drop_packet x
  ]

  -- The branches of HandleNextPacket on the EAP layer; the answers of a server go to the client, nil.
  unfoldable pub handle_eap : EapCode → EapType → Eap → Exchange → Result Exchange
  unfolding handle_identity_request handle_challenge_request handle_success
  handle_eap request identity eap x = handle_identity_request eap x
  handle_eap request otp eap x = handle_challenge_request eap x
  handle_eap response identity eap x = panics
  handle_eap response otp eap x = panics
  handle_eap success none_type eap x = handle_success x
  handle_eap _ _ eap x = ok x

  -- HandleNextPacket: without any layer the program ends; an EAPOL start goes to the client, nil; and
  -- with another EAPOL layer alone the EAP layer that is read is nil.
  unfoldable pub handle_next_packet : Packet → Exchange → Result Exchange
  unfolding handle_eap
  handle_next_packet p x = elim p.eapol [
    | some start ↦ panics
    | _ ↦ elim p.eap [ none ↦ panics | some eap ↦ handle_eap eap.code eap.kind eap x ]
  ]

  -- The EAPOL start that SendEapStart composes.
  unfoldable pub start_packet : Service → PacketIn
  start_packet s = record {
    mac = s.hw_address;
    reply = none;
    intf_id = place.intf_id;
    gemport_id = s.gem_port;
    port_no = place.port_no;
    onu_id = place.onu_id;
    uni_id = place.uni_id;
  }

  -- SendEapStart, once the start is sent: an error goes back to HandleChannel, which fails the machine.
  unfoldable pub send_eap_start : Exchange → Result Exchange
  send_eap_start x = do
    (err, s) ← fire_eapol engine EapolTx.start_sent x.service
    let y : Exchange = record x { service = s }
    elim err [ none ↦ ok y | some _ ↦ fire_machine EapolTx.fail_auth y ]

  -- The case StartEAPOL of HandleChannel, with handleEapolStart and SendEapStart.
  unfoldable pub handle_eapol_start : Exchange → Result Exchange
  unfolding start_packet send_eap_start
  handle_eapol_start x =
      if delivers
      then send_eap_start (record x { sent = x.sent ++ start_packet x.service ∷ [] })
      else fire_machine EapolTx.fail_auth x >>= fire_machine EapolTx.fail_auth
