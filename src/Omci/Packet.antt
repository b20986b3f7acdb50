-- ===== src/Omci/Packet.antt =====
-- OMCI messages as internal/common/omci reads them. A packet is decoded by omci-lib-go, a library:
-- what is modelled is the body layer that it finds, of which a packet has at most one.
use g_simulator.Prelude.{ℕ, Bool, List, Option, none, some}

-- The `me.ClassID` values that the source names.
pub data EntityClass : Type 0 where
  pptp_ethernet_uni pptp_pots_uni onu_g t_cont gem_port_network_ctp onu_data ani_g : EntityClass
  ethernet_frame_extended_pm ethernet_frame_extended_pm_64_bit : EntityClass
  other_class : ℕ → EntityClass

-- The `me.Results` values that the source names.
pub data Results : Type 0 where
  success processing_error attribute_failure parameter_error : Results

-- MeBasePacket.
pub record MeBase : Type 0 where
  pub entity_class : EntityClass
  pub entity_instance : ℕ

-- Keys of `Attributes` that the source reads; the three `AdministrativeState` constants are equal.
pub data AttributeName : Type 0 where
  administrative_state alloc_id managed_entity_id : AttributeName

-- A value of type `interface{}`.
pub data AttributeValue : Type 0 where
  uint8_value uint16_value : ℕ → AttributeValue
  other_value : AttributeValue

pub record SetRequest : Type 0 where
  pub base : MeBase
  pub attributes : AttributeName → Option AttributeValue

pub record StartSoftwareDownloadRequest : Type 0 where
  pub base : MeBase
  pub extended : Bool
  pub window_size : ℕ
  pub image_size : ℕ

pub record DownloadSectionRequest : Type 0 where
  pub base : MeBase
  pub section_number : ℕ
  pub section_data : List ℕ

pub record EndSoftwareDownloadRequest : Type 0 where
  pub base : MeBase
  pub crc32 : ℕ
  pub image_size : ℕ

-- The body layer of a packet.
pub data Body : Type 0 where
  set_request : SetRequest → Body
  create_request delete_request reboot_request : MeBase → Body
  optical_line_supervision_test_request synchronize_time_request : MeBase → Body
  start_software_download_request : StartSoftwareDownloadRequest → Body
  download_section_request : DownloadSectionRequest → Body
  end_software_download_request : EndSoftwareDownloadRequest → Body
  activate_software_request commit_software_request : MeBase → Body
  get_all_alarms_next_request : ℕ → Body
  other_body : Body

-- The message types that the handler's switch names.
pub data MessageType : Type 0 where
  mib_reset mib_upload mib_upload_next get set create delete : MessageType
  reboot test synchronize_time : MessageType
  start_software_download download_section download_section_with_response : MessageType
  end_software_download activate_software commit_software : MessageType
  get_all_alarms get_all_alarms_next : MessageType
  other_type : MessageType

-- The OMCI layer; `extended` is `DeviceIdentifier == omci.ExtendedIdent`.
pub record OmciHeader : Type 0 where
  pub transaction_id : ℕ
  pub message_type : MessageType
  pub extended : Bool

-- OmciMessage (internal/bbsim/types); `reparsed` is the message type, if any, that
-- ParseOpenOltOmciPacket reads from the bytes of the packet.
pub record OmciMessage : Type 0 where
  pub omci_msg : OmciHeader
  pub omci_pkt : Body
  pub reparsed : Option MessageType

-- The Parse functions: `none` is the error.
abbrev pub parse_set_request : Body → Option SetRequest
parse_set_request (set_request r) = some r
parse_set_request _ = none

abbrev pub parse_create_request : Body → Option MeBase
parse_create_request (create_request r) = some r
parse_create_request _ = none

abbrev pub parse_delete_request : Body → Option MeBase
parse_delete_request (delete_request r) = some r
parse_delete_request _ = none

abbrev pub parse_reboot_request : Body → Option MeBase
parse_reboot_request (reboot_request r) = some r
parse_reboot_request _ = none

abbrev pub parse_optical_line_supervision_request : Body → Option MeBase
parse_optical_line_supervision_request (optical_line_supervision_test_request r) = some r
parse_optical_line_supervision_request _ = none

abbrev pub parse_sync_time_request : Body → Option MeBase
parse_sync_time_request (synchronize_time_request r) = some r
parse_sync_time_request _ = none

abbrev pub parse_start_software_download_request : Body → Option StartSoftwareDownloadRequest
parse_start_software_download_request (start_software_download_request r) = some r
parse_start_software_download_request _ = none

abbrev pub parse_download_section_request : Body → Option DownloadSectionRequest
parse_download_section_request (download_section_request r) = some r
parse_download_section_request _ = none

abbrev pub parse_end_software_download_request : Body → Option EndSoftwareDownloadRequest
parse_end_software_download_request (end_software_download_request r) = some r
parse_end_software_download_request _ = none

abbrev pub parse_activate_software_request : Body → Option MeBase
parse_activate_software_request (activate_software_request r) = some r
parse_activate_software_request _ = none

abbrev pub parse_commit_software_request : Body → Option MeBase
parse_commit_software_request (commit_software_request r) = some r
parse_commit_software_request _ = none

abbrev pub parse_get_all_alarms_next_request : Body → Option ℕ
parse_get_all_alarms_next_request (get_all_alarms_next_request n) = some n
parse_get_all_alarms_next_request _ = none
