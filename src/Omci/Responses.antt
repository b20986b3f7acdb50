-- ===== src/Omci/Responses.antt =====
-- The Create functions of internal/common/omci: the response to a request, as the structure that is
-- handed to the library for serialization. `none` is the error returned.
use g_simulator.Prelude.{
  ℕ, suc, ◌+◌, ◌≡◌, ◌↔◌, Bool, true, false, ◌&&◌, List, [], ◌∷◌, Option, none, some, ltb, ◌==◌,
  if◌then◌else◌, arith,
}
use g_simulator.Prelude.Map
use g_simulator.Prelude.Map.{Eq}
use g_simulator.Go.{Result, ok, ◌>>=◌, deref}
use g_simulator.Omci.Packet.{
  EntityClass, Results, MeBase, Body, MessageType, OmciHeader, parse_set_request,
  parse_create_request, parse_delete_request, parse_reboot_request,
  parse_optical_line_supervision_request, parse_sync_time_request,
  parse_start_software_download_request, parse_download_section_request,
  parse_end_software_download_request, parse_activate_software_request,
  parse_commit_software_request, parse_get_all_alarms_next_request,
}

-- OnuAlarmInfoMapKey and OnuAlarmInfo.
pub record OnuAlarmInfoMapKey : Type 0 where
  pub me_instance : ℕ
  pub me_class_id : ℕ

pub record OnuAlarmInfo : Type 0 where
  pub sequence_no : ℕ
  pub alarm_bit_map : List ℕ

abbrev pub same_alarm_key : OnuAlarmInfoMapKey → OnuAlarmInfoMapKey → Bool
same_alarm_key a b = (a.me_instance == b.me_instance) && (a.me_class_id == b.me_class_id)

pub same_alarm_key_iff : (a b : OnuAlarmInfoMapKey) → (same_alarm_key a b ≡ true) ↔ (a ≡ b)
same_alarm_key_iff a b = ground arith

instance abbrev pub alarm_key_eq : Eq OnuAlarmInfoMapKey
alarm_key_eq = record { beq = same_alarm_key; beq_iff = same_alarm_key_iff }

-- What a response holds besides its base and its result. The bodies of the responses to Get and
-- MibUploadNext are not modelled: `get_content` and `mib_upload_next_content` stand for the calls of
-- CreateGetResponse and CreateMibUploadNextResponse, the first with the ONU's data among its arguments.
pub data Content : Type 0 where
  nothing : Content
  window_size number_of_commands section_number : ℕ → Content
  alarm_bit_map : ℕ → List ℕ → List (ℕ × List ℕ) → Content
  test_measurements : Content
  get_content : Body → ℕ → ℕ → ℕ → List (List ℕ) → Bool → Content
  mib_upload_next_content : Body → Content

-- A response, by the type of the request that it answers.
pub record Response : Type 0 where
  pub answers : MessageType
  pub base : MeBase
  pub extended : Bool
  pub result : Results
  pub content : Content

-- The libraries: `serialize` is omci-lib-go's, from the transaction id, and may fail; `checksum` is
-- crc32a.Checksum; `beyond` is what a Go slice gives past its length, which depends on its capacity.
pub record Library : Type 0 where
  pub serialize : ℕ → Response → Option (List ℕ)
  pub checksum : List ℕ → ℕ
  pub beyond : ℕ → List ℕ → Result (List ℕ)

abbrev onu_data_base : MeBase
onu_data_base = record { entity_class = EntityClass.onu_data; entity_instance = 0 }

abbrev answer : MessageType → MeBase → Bool → Results → Content → Response
answer kind base extended result content = record {
  answers = kind;
  base = base;
  extended = extended;
  result = result;
  content = content;
}

module _ (lib : Library) (pkt : Body) (msg : OmciHeader) where
  serialize_for : Option MeBase → (MeBase → Response) → Option (List ℕ)
  serialize_for none f = none
  serialize_for (some b) f = lib.serialize msg.transaction_id (f b)

  unfoldable pub create_mib_reset_response : Option (List ℕ)
  create_mib_reset_response =
      lib.serialize msg.transaction_id
        (answer MessageType.mib_reset onu_data_base false Results.success Content.nothing)

  unfoldable pub create_set_response : Results → Option (List ℕ)
  create_set_response result = elim (parse_set_request pkt) [
    | none ↦ none
    | some r ↦
        lib.serialize msg.transaction_id
          (answer MessageType.set r.base false result Content.nothing)
  ]

  unfoldable pub create_create_response : Results → Option (List ℕ)
  unfolding serialize_for
  create_create_response result =
      serialize_for (parse_create_request pkt)
        λ b. answer MessageType.create b false result Content.nothing

  unfoldable pub create_delete_response : Option (List ℕ)
  unfolding serialize_for
  create_delete_response =
      serialize_for (parse_delete_request pkt)
        λ b. answer MessageType.delete b false Results.success Content.nothing

  unfoldable pub create_reboot_response : Option (List ℕ)
  unfolding serialize_for
  create_reboot_response =
      serialize_for (parse_reboot_request pkt)
        λ b. answer MessageType.reboot b false Results.success Content.nothing

  unfoldable pub create_sync_time_response : Option (List ℕ)
  unfolding serialize_for
  create_sync_time_response =
      serialize_for (parse_sync_time_request pkt)
        λ b. answer MessageType.synchronize_time b false Results.success Content.nothing

  -- CreateTestResponse; the entity under test comes with the response.
  unfoldable pub create_test_response : Option (List ℕ × MeBase)
  create_test_response = elim (parse_optical_line_supervision_request pkt) [
    | none ↦ none
    | some b ↦
        elim (lib.serialize msg.transaction_id
          (answer MessageType.test b false Results.success Content.nothing)) [
            | none ↦ none
            | some bytes ↦ some (bytes, b)
          ]
  ]

  -- CreateTestResult; the measured values are random.
  unfoldable pub create_test_result : MeBase → Option (List ℕ)
  create_test_result b = elim b.entity_class [
    | EntityClass.ani_g ↦
        lib.serialize msg.transaction_id
          (answer MessageType.test b false Results.success Content.test_measurements)
    | _ ↦ none
  ]

  -- CreateStartSoftwareDownloadResponse reads the request even if it did not parse.
  unfoldable pub create_start_software_download_response : Result (Option (List ℕ))
  create_start_software_download_response = do
    r ← deref (parse_start_software_download_request pkt)
    ok (
        lib.serialize msg.transaction_id (
          answer MessageType.start_software_download r.base msg.extended Results.success
            (Content.window_size r.window_size)))

  unfoldable pub create_download_section_response : Option (List ℕ)
  create_download_section_response = elim (parse_download_section_request pkt) [
    | none ↦ none
    | some r ↦ lib.serialize msg.transaction_id (
        answer MessageType.download_section r.base msg.extended Results.success
          (Content.section_number r.section_number))
  ]

  unfoldable pub create_end_software_download_response : Results → Option (List ℕ)
  create_end_software_download_response status = elim (parse_end_software_download_request pkt) [
    | none ↦ none
    | some r ↦
        lib.serialize msg.transaction_id
          (answer MessageType.end_software_download r.base msg.extended status Content.nothing)
  ]

  unfoldable pub create_activate_software_response : Option (List ℕ)
  unfolding serialize_for
  create_activate_software_response =
      serialize_for (parse_activate_software_request pkt)
        λ b. answer MessageType.activate_software b msg.extended Results.success Content.nothing

  unfoldable pub create_commit_software_response : Option (List ℕ)
  unfolding serialize_for
  create_commit_software_response =
      serialize_for (parse_commit_software_request pkt)
        λ b. answer MessageType.commit_software b msg.extended Results.success Content.nothing

  -- CreateMibUploadResponse, from the two numbers of commands of the MibDb.
  unfoldable pub create_mib_upload_response : ℕ → ℕ → Option (List ℕ)
  create_mib_upload_response baseline extended = lib.serialize msg.transaction_id (
      answer MessageType.mib_upload onu_data_base msg.extended Results.success
        (Content.number_of_commands (if msg.extended then extended else baseline)))

  -- The calls of CreateGetResponse and CreateMibUploadNextResponse, whose responses are not modelled.
  unfoldable pub create_get_response : ℕ → ℕ → ℕ → List (List ℕ) → Bool → Option (List ℕ)
  create_get_response mds active committed versions onu_down = lib.serialize msg.transaction_id (
      answer MessageType.get onu_data_base msg.extended Results.success
        (Content.get_content pkt mds active committed versions onu_down))

  unfoldable pub create_mib_upload_next_response : Option (List ℕ)
  create_mib_upload_next_response = lib.serialize msg.transaction_id (
      answer MessageType.mib_upload_next onu_data_base msg.extended Results.success
        (Content.mib_upload_next_content pkt))

-- `me.PhysicalPathTerminationPointEthernetUniClassID`.
abbrev pub pptp_class_id : ℕ
pptp_class_id = 11

abbrev pptp_key : ℕ → OnuAlarmInfoMapKey
pptp_key me_instance = record { me_instance = me_instance; me_class_id = pptp_class_id }

module _ (alarms : List (OnuAlarmInfoMapKey × OnuAlarmInfo)) where
  -- The loop of CreateGetAllAlarmsResponse over entity instances.
  count_commands : List ℕ → ℕ
  count_commands [] = 0
  count_commands (i ∷ rest) = elim (Map.lookup (pptp_key i) alarms) [
    | none ↦ count_commands rest
    | some _ ↦ suc (count_commands rest)
  ]

  -- The loop of CreateGetAllAlarmsNextResponse.
  additional_alarms : List ℕ → List (ℕ × List ℕ)
  additional_alarms [] = []
  additional_alarms (i ∷ rest) = elim (Map.lookup (pptp_key i) alarms) [
    | none ↦ additional_alarms rest
    | some info ↦ (i, info.alarm_bit_map) ∷ additional_alarms rest
  ]

  module _ (lib : Library) (pkt : Body) (msg : OmciHeader) where
    unfoldable pub create_get_all_alarms_response : Option (List ℕ)
    unfolding count_commands
    create_get_all_alarms_response = lib.serialize msg.transaction_id (
        answer MessageType.get_all_alarms onu_data_base msg.extended Results.success
          (Content.number_of_commands (count_commands (257 ∷ 258 ∷ 259 ∷ 260 ∷ []))))

    unfoldable pub create_get_all_alarms_next_response : Option (List ℕ)
    unfolding additional_alarms
    create_get_all_alarms_next_response = elim (parse_get_all_alarms_next_request pkt) [
      | none ↦ none
      | some n ↦ if ltb 4 n then none else elim (Map.lookup (pptp_key (257 + n)) alarms) [
        | none ↦ none
        | some info ↦
            let extra =
              if msg.extended && (n == 0) then additional_alarms (258 ∷ 259 ∷ 260 ∷ []) else [] in
            lib.serialize msg.transaction_id (
              answer MessageType.get_all_alarms_next onu_data_base msg.extended Results.success
                (Content.alarm_bit_map (257 + n) info.alarm_bit_map extra))
      ]
    ]
