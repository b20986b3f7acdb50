-- ===== src/Onu/Counters.antt =====
-- The counters of an ONU (internal/bbsim/devices/onu.go: getNextTid, IncrementAlarmSequenceNumber,
-- InvalidateMibDataSync, SetID).
use g_simulator.Prelude.{
  ℕ, ◌+◌, ◌≤◌, ◌<◌, ◌≡◌, ◌≢◌, inl, inr, Bool, true, false, List, Option, none, some, Option-cases,
  ltb, leb, ◌==◌, if◌then◌else◌, u8, u16, arith,
}
use g_simulator.Prelude.Map
use g_simulator.Prelude.Map.{Eq, lookup-insert}
use g_simulator.Omci.Responses.{OnuAlarmInfoMapKey, OnuAlarmInfo, alarm_key_eq, same_alarm_key_iff}
use g_simulator.Omci.Alarms.{no_alarms}
use g_simulator.Onu.State.{Onu}

-- SetID.
unfoldable pub set_id : ℕ → Onu → Onu
set_id id o = record o { id = id }

-- getNextTid.
unfoldable pub get_next_tid : Bool → Onu → ℕ × Onu
get_next_tid true o =
    let n = u16 (o.hp_tid + 1) in
    (o.hp_tid, record o { hp_tid = if ltb n 0x8000 then 0x8000 else n })
get_next_tid false o =
    let n = u16 (o.tid + 1) in (o.tid, record o { tid = if leb 0x8000 n then 1 else n })

-- IncrementAlarmSequenceNumber.
unfoldable pub increment_alarm_sequence_number : OnuAlarmInfoMapKey → Onu → ℕ × Onu
increment_alarm_sequence_number key o = elim (Map.lookup key o.onu_alarms_info) [
  | some info ↦
      let n = if info.sequence_no == 255 then 1 else u8 (info.sequence_no + 1) in
      (
        n,
        record o {
          onu_alarms_info = Map.insert key (record info { sequence_no = n }) o.onu_alarms_info;
        },
      )
  | none ↦ (
    1,
    record o {
      onu_alarms_info =
          Map.insert key (record { sequence_no = 1; alarm_bit_map = no_alarms }) o.onu_alarms_info;
    },
  )
]

-- InvalidateMibDataSync, where `r` is the random number between 1 and 10.
unfoldable pub invalidate_mib_data_sync : ℕ → Onu → Onu
invalidate_mib_data_sync r o =
    let n = u8 (o.mib_data_sync + r) in record o { mib_data_sync = if n == 0 then 1 else n }

-- The transaction ids of the two priorities are in ranges of their own.
abbrev pub IsTidsWellformed : Onu → Type 0
IsTidsWellformed o = (1 ≤ o.tid) × (o.tid < 0x8000) × (0x8000 ≤ o.hp_tid) × (o.hp_tid < 0x10000)

abbrev pub InRange : Bool → ℕ → Type 0
InRange true t = (0x8000 ≤ t) × (t < 0x10000)
InRange false t = (1 ≤ t) × (t < 0x8000)

-- If the next transaction ids of the two priorities are in their ranges (1 to 0x7fff, and 0x8000 to
-- 0xffff for the high priority), then so is the one returned, the ranges are kept for the next call, and
-- two calls of one priority in a row return different ids.
pub get_next_tid_lem :
    (high : Bool) (o : Onu)
    → IsTidsWellformed o
    → InRange high (get_next_tid high o).0
      × IsTidsWellformed (get_next_tid high o).1
      × ((get_next_tid high (get_next_tid high o).1).0 ≢ (get_next_tid high o).0)
unfolding get_next_tid
get_next_tid_lem true o h = (ground arith, ground arith, λ e. ground arith)
get_next_tid_lem false o h = (ground arith, ground arith, λ e. ground arith)

-- What an entity's alarm information becomes with a new sequence number.
abbrev pub numbered : ℕ → Option OnuAlarmInfo → OnuAlarmInfo
numbered n (some info) = record info { sequence_no = n }
numbered n none = record { sequence_no = n; alarm_bit_map = no_alarms }

pub stored :
    (key : OnuAlarmInfoMapKey) (info : OnuAlarmInfo) (m : List (OnuAlarmInfoMapKey × OnuAlarmInfo))
    → (Map.lookup key (Map.insert key info m) ≡ some info)
      × ((j : OnuAlarmInfoMapKey) → j ≢ key → Map.lookup j (Map.insert key info m) ≡ Map.lookup j m)
stored key info m = (
  ground (arith, lookup-insert key key info m, same_alarm_key_iff key key),
  λ j ne. ground (arith, lookup-insert key j info m, same_alarm_key_iff key j),
)

-- The sequence number that an alarm message of a managed entity gets: it is from 1 to 255 if the last
-- one was a byte, it is the number then stored with the alarm bits of the entity unchanged, and the
-- alarms of all other entities are as before.
pub increment_alarm_sequence_number_lem :
    (key : OnuAlarmInfoMapKey) (o : Onu)
    → ((info : OnuAlarmInfo)
        → Map.lookup key o.onu_alarms_info ≡ some info
        → info.sequence_no < 256)
    → (1 ≤ (increment_alarm_sequence_number key o).0)
      × ((increment_alarm_sequence_number key o).0 < 256)
      × (Map.lookup key (increment_alarm_sequence_number key o).1.onu_alarms_info
          ≡ some (
              numbered
                (increment_alarm_sequence_number key o).0
                (Map.lookup key o.onu_alarms_info)))
      × ((j : OnuAlarmInfoMapKey)
          → j ≢ key
          → Map.lookup j (increment_alarm_sequence_number key o).1.onu_alarms_info
            ≡ Map.lookup j o.onu_alarms_info)
unfolding increment_alarm_sequence_number
increment_alarm_sequence_number_lem key o h =
    elim (Option-cases (Map.lookup key o.onu_alarms_info)) [
      | inl e ↦
          let s =
            stored key (record { sequence_no = 1; alarm_bit_map = no_alarms }) o.onu_alarms_info in
          (
            ground (arith, e),
            ground (arith, e),
            ground (arith, e, s.0),
            λ j ne. ground (arith, e, s.1 j ne),
          )
      | inr (info, e) ↦
          let n = if info.sequence_no == 255 then 1 else u8 (info.sequence_no + 1) in
          let s = stored key (record info { sequence_no = n }) o.onu_alarms_info in
          let bounded = h info e in
          (
            ground (arith, e, bounded),
            ground (arith, e, bounded),
            ground (arith, e, s.0),
            λ j ne. ground (arith, e, s.1 j ne),
          )
    ]

-- Invalidating the MIB data sync by a number between 1 and 10 gives a byte that is neither 0 nor the
-- number before.
pub invalidate_mib_data_sync_lem :
    (r : ℕ) (o : Onu)
    → 1 ≤ r
    → r ≤ 10
    → o.mib_data_sync < 256
    → ((invalidate_mib_data_sync r o).mib_data_sync ≢ o.mib_data_sync)
      × ((invalidate_mib_data_sync r o).mib_data_sync ≢ 0)
      × ((invalidate_mib_data_sync r o).mib_data_sync < 256)
unfolding invalidate_mib_data_sync
invalidate_mib_data_sync_lem r o h k b = (λ e. ground arith, λ e. ground arith, ground arith)
