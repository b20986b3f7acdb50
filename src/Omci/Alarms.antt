-- ===== src/Omci/Alarms.antt =====
-- Alarm notifications (internal/common/omci/alarms.go, CreateUniStatusAlarm).
use g_simulator.Prelude.{ℕ, Bool, List, [], ◌∷◌, Option, none, some, if◌then◌else◌}

-- The zero value of an alarm bit map, `[28]byte{0}`.
abbrev pub no_alarms : List ℕ
no_alarms =
    0 ∷ 0 ∷ 0 ∷ 0 ∷ 0 ∷ 0 ∷ 0 ∷ 0 ∷ 0 ∷ 0 ∷ 0 ∷ 0 ∷ 0 ∷ 0 ∷ 0 ∷ 0 ∷ 0 ∷ 0 ∷ 0 ∷ 0 ∷ 0 ∷ 0 ∷ 0 ∷ 0
    ∷ 0 ∷ 0 ∷ 0 ∷ 0 ∷ []

-- omci-lib-go: ActivateAlarm and ClearAlarm of an AlarmNotificationMsg of an Ethernet UNI, on its bit
-- map; and the serialization of the notification of an entity with a sequence number.
pub record Notifier : Type 0 where
  pub activate_alarm : List ℕ → ℕ → Option (List ℕ)
  pub clear_alarm : List ℕ → ℕ → Option (List ℕ)
  pub serialize_notification : ℕ → ℕ → List ℕ → Option (List ℕ)

module _ (lib : Notifier) where
  -- CreateUniStatusAlarm: the packet, nil on an error, and the bit map.
  unfoldable pub create_uni_status_alarm : Bool → ℕ → ℕ → Option (List ℕ) × List ℕ
  create_uni_status_alarm raise_alarm entity_id sequence_no =
      elim (if raise_alarm then lib.activate_alarm no_alarms 0 else lib.clear_alarm no_alarms 0) [
        | none ↦ (none, no_alarms)
        | some bits ↦ elim (lib.serialize_notification entity_id sequence_no bits) [
          | none ↦ (none, no_alarms)
          | some pkt ↦ (some pkt, bits)
        ]
      ]
