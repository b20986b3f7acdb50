-- ===== src/Alarms.antt =====
-- Alarms of ONUs (internal/bbsim/alarmsim/alarmsim.go, internal/common/alarms.go).
use Prim.Native.String.{String}
use text.Mathlib.Text.{◌==◌ as str_eq}
use g_simulator.Prelude.{ℕ, List, [], ◌∷◌, Option, none, some, if◌then◌else◌}
use g_simulator.Go.{Result, ok, Chan, ◌>>=◌, send}

-- `bbsim.AlarmType_Types`, less `LOS`.
pub data AlarmType : Type 0 where
  dying_gasp onu_alarm onu_startup_failure onu_signal_degrade onu_signals_failure : AlarmType
  onu_drift_of_window onu_loss_of_omci_channel onu_transmission_interference_warning : AlarmType
  onu_activation_failure onu_processing_error onu_loss_of_key_sync_failure onu_itu_pon_stats :
      AlarmType
  onu_alarm_los onu_alarm_lob onu_alarm_lopc_miss onu_alarm_lopc_mic_error onu_alarm_lofi
        onu_alarm_loami :
      AlarmType

-- The table `common.ONUAlarms`, which is made of the names of the enumeration, `LOS` excepted.
pub onu_alarms : List (String × AlarmType)
onu_alarms =
    ("DYING_GASP", dying_gasp)
    ∷ ("ONU_ALARM", onu_alarm)
    ∷ ("ONU_STARTUP_FAILURE", onu_startup_failure)
    ∷ ("ONU_SIGNAL_DEGRADE", onu_signal_degrade)
    ∷ ("ONU_SIGNALS_FAILURE", onu_signals_failure)
    ∷ ("ONU_DRIFT_OF_WINDOW", onu_drift_of_window)
    ∷ ("ONU_LOSS_OF_OMCI_CHANNEL", onu_loss_of_omci_channel)
    ∷ ("ONU_TRANSMISSION_INTERFERENCE_WARNING", onu_transmission_interference_warning)
    ∷ ("ONU_ACTIVATION_FAILURE", onu_activation_failure)
    ∷ ("ONU_PROCESSING_ERROR", onu_processing_error)
    ∷ ("ONU_LOSS_OF_KEY_SYNC_FAILURE", onu_loss_of_key_sync_failure)
    ∷ ("ONU_ITU_PON_STATS", onu_itu_pon_stats)
    ∷ ("ONU_ALARM_LOS", onu_alarm_los)
    ∷ ("ONU_ALARM_LOB", onu_alarm_lob)
    ∷ ("ONU_ALARM_LOPC_MISS", onu_alarm_lopc_miss)
    ∷ ("ONU_ALARM_LOPC_MIC_ERROR", onu_alarm_lopc_mic_error)
    ∷ ("ONU_ALARM_LOFI", onu_alarm_lofi)
    ∷ ("ONU_ALARM_LOAMI", onu_alarm_loami)
    ∷ []

-- An `openolt.AlarmIndication`: its kind, the status where the kind has one, the ids, and the
-- numbers that the kind takes from the parameters, in the order of its fields.
pub record AlarmIndication : Type 0 where
  pub kind : AlarmType
  pub status : Option String
  pub onu_id : ℕ
  pub intf_id : ℕ
  pub numbers : List ℕ

-- ONUAlarmRequest, less the serial number, which is not read.
pub record OnuAlarmRequest : Type 0 where
  pub alarm_type : String
  pub parameters : List (String × String)
  pub status : String

alarm_name_in : String → List (String × AlarmType) → Option AlarmType
alarm_name_in name [] = none
alarm_name_in name ((n, t) ∷ rest) = if str_eq n name then some t else alarm_name_in name rest

-- AlarmNameToEnum.
unfoldable pub alarm_name_to_enum : String → Option AlarmType
unfolding onu_alarms alarm_name_in
alarm_name_to_enum name = alarm_name_in name onu_alarms

-- `atoi` is `strconv.Atoi` followed by the conversion to the unsigned field.
module _ (atoi : String → Option ℕ) where
  -- extractInt with the default 0.
  unfoldable pub extract_int : List (String × String) → String → ℕ
  extract_int [] name = 0
  extract_int ((key, value) ∷ rest) name =
      let others = extract_int rest name in
      if str_eq key name then elim (atoi value) [ some i ↦ i | none ↦ others ] else others

  -- The status and the numbers of an indication, by kind; ONU_ALARM meets the default, an error.
  unfoldable pub details : AlarmType → OnuAlarmRequest → Option (Option String × List ℕ)
  details onu_alarm r = none
  details onu_signal_degrade r =
      some (some r.status, extract_int r.parameters "InverseBitErrorRate" ∷ [])
  details onu_signals_failure r =
      some (some r.status, extract_int r.parameters "InverseBitErrorRate" ∷ [])
  details onu_drift_of_window r =
      some
        (some r.status, extract_int r.parameters "Drift" ∷ extract_int r.parameters "NewEqd" ∷ [])
  details onu_transmission_interference_warning r =
      some (some r.status, extract_int r.parameters "Drift" ∷ [])
  details onu_activation_failure r = some (none, extract_int r.parameters "FailReason" ∷ [])
  details onu_processing_error r = some (none, [])
  details onu_itu_pon_stats r = some (some r.status, extract_int r.parameters "RdiErrors" ∷ [])
  details _ r = some (some r.status, [])

  -- BuildOnuAlarmIndication; `none` is the error.
  unfoldable pub build_onu_alarm_indication : OnuAlarmRequest → ℕ → ℕ → Option AlarmIndication
  build_onu_alarm_indication r onu_id pon_port_id = elim (alarm_name_to_enum r.alarm_type) [
    | none ↦ none
    | some kind ↦ elim (details kind r) [
      | none ↦ none
      | some (status, numbers) ↦ some (record {
        kind = kind;
        status = status;
        onu_id = onu_id;
        intf_id = pon_port_id;
        numbers = numbers;
      })
    ]
  ]

  -- SimulateOnuAlarm: `none` beside the channel is the error, after which nothing was sent.
  unfoldable pub simulate_onu_alarm :
      OnuAlarmRequest → ℕ → ℕ → Chan AlarmIndication → Result (Option (Chan AlarmIndication))
  simulate_onu_alarm r onu_id pon_port_id channel =
      elim (build_onu_alarm_indication r onu_id pon_port_id) [
        | none ↦ ok none
        | some indication ↦ do channel' ← send channel indication; ok (some channel')
      ]
