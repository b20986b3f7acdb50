-- ===== src/Onu/Messages/Alarms.antt =====
-- The alarms of a UNI as the goroutine of its ONU notes them (internal/bbsim/devices/onu.go,
-- ProcessOnuMessages, the case UniStatusAlarm).
use g_simulator.Prelude.Map.{lookup-delete, lookup-insert}
use g_simulator.Onu.Omci.{send_omci_indication}
use g_simulator.Onu.Messages.Sending.{note_alarm, handle_uni_status_alarm}
use g_simulator.Onu.Counters.{increment_alarm_sequence_number}
use g_simulator.Messages.{UniStatusAlarm}
use g_simulator.Onu.State.{OmciIndication, Onu, World}
use g_simulator.Omci.EntityId.{equals}
use g_simulator.Omci.Alarms.{create_uni_status_alarm, no_alarms, Notifier}
use g_simulator.Omci.Responses.{
  same_alarm_key_iff, same_alarm_key, OnuAlarmInfo, alarm_key_eq, pptp_class_id, OnuAlarmInfoMapKey,
}
use g_simulator.Prelude.{
  subst, append_assoc, inl, inr, Option-cases, ℕ, ◌+◌, ◌≡◌, ◌≢◌, refl, Bool, true, false, List, [],
  ◌∷◌, ◌++◌, Option, none, some, ◌==◌, if◌then◌else◌, u8, arith,
}
use g_simulator.Prelude.Map

-- The entity of a UNI in the table of alarms.
abbrev pub uni_key : ℕ → OnuAlarmInfoMapKey
uni_key entity_id = record { me_instance = entity_id; me_class_id = pptp_class_id }

-- What documented calls of omci-lib-go do: the first alarm is set and cleared in the bit map, and
-- notifications are serialized.
pub record Notifies (notifier : Notifier) (bits : List ℕ) (pkt : ℕ → ℕ → List ℕ → List ℕ)
    : Type 0 where
  pub activates : notifier.activate_alarm no_alarms 0 ≡ some bits
  pub some_alarm : equals bits no_alarms ≡ false
  pub clears : notifier.clear_alarm no_alarms 0 ≡ some no_alarms
  pub serializes :
      (entity_id n : ℕ) (b : List ℕ)
      → notifier.serialize_notification entity_id n b ≡ some (pkt entity_id n b)

-- The notification that an ONU sends, with this packet.
abbrev pub notified : Onu → List ℕ → OmciIndication
notified o pkt = record { intf_id = o.pon_port_id; onu_id = o.id; pkt = pkt }

-- The next sequence number of an entity.
abbrev pub next_number : Option OnuAlarmInfo → ℕ
next_number none = 1
next_number (some info) = if info.sequence_no == 255 then 1 else u8 (info.sequence_no + 1)

-- The entry of an entity with these alarms.
abbrev pub entry : ℕ → List ℕ → Option OnuAlarmInfo
entry n b =
    if equals b no_alarms then none else some (record { sequence_no = n; alarm_bit_map = b })

no_alarms-equals : equals no_alarms no_alarms ≡ true
unfolding equals
no_alarms-equals = refl

-- The successor of a sequence number.
abbrev pub following : ℕ → ℕ
following n = if n == 255 then 1 else u8 (n + 1)

module _ (delivers : World → Bool) (takes : (w : World) → delivers w ≡ true) (notifier : Notifier)
    (bits : List ℕ) (pkt : ℕ → ℕ → List ℕ → List ℕ) (lib : Notifies notifier bits pkt) where
  -- After an alarm message of the entity: the notification sent, and the table.
  abbrev pub Noted : ℕ → List ℕ → World → World → Type 0
  Noted entity_id b w v =
      let n = next_number (Map.lookup (uni_key entity_id) w.onu.onu_alarms_info) in
      (v.indications ≡ w.indications ++ notified w.onu (pkt entity_id n b) ∷ [])
      × ((j : OnuAlarmInfoMapKey)
          → Map.lookup j v.onu.onu_alarms_info ≡ (
              if same_alarm_key (uni_key entity_id) j
              then entry n b
              else Map.lookup j w.onu.onu_alarms_info))
      × (v.onu.pon_port_id ≡ w.onu.pon_port_id)
      × (v.onu.id ≡ w.onu.id)

  noted :
      (key : OnuAlarmInfoMapKey) (info : OnuAlarmInfo) (b bytes : List ℕ) (w : World)
      (j : OnuAlarmInfoMapKey)
      → Map.lookup j (note_alarm delivers notifier key info bytes b w).onu.onu_alarms_info ≡ (
          if same_alarm_key key j
          then entry info.sequence_no b
          else Map.lookup j w.onu.onu_alarms_info)
  unfolding note_alarm send_omci_indication
  noted key info b bytes w j = ground (
    arith,
    takes w,
    lookup-insert key j (record { sequence_no = info.sequence_no; alarm_bit_map = b })
        w.onu.onu_alarms_info,
    lookup-delete key j w.onu.onu_alarms_info,
  )

  -- The alarm message once the entity has an entry with its new number.
  numbered-Noted :
      (a : UniStatusAlarm) (b : List ℕ) (w : World) (info : OnuAlarmInfo)
      → (increment_alarm_sequence_number (uni_key a.entity_id) w.onu ≡ (
        info.sequence_no,
        record w.onu {
          onu_alarms_info = Map.insert (uni_key a.entity_id) info w.onu.onu_alarms_info;
        },
      ))
      → info.sequence_no ≡ next_number (Map.lookup (uni_key a.entity_id) w.onu.onu_alarms_info)
      → ((n : ℕ)
          → create_uni_status_alarm notifier a.raise_omci_alarm a.entity_id n
            ≡ (some (pkt a.entity_id n b), b))
      → Noted a.entity_id b w (handle_uni_status_alarm delivers notifier a w)
  unfolding handle_uni_status_alarm note_alarm send_omci_indication
  numbered-Noted a b w info e n made =
      let key = uni_key a.entity_id in
      let v : World = record w {
        onu = record w.onu { onu_alarms_info = Map.insert key info w.onu.onu_alarms_info };
      } in
      let bytes = pkt a.entity_id info.sequence_no b in
      let handled : handle_uni_status_alarm delivers notifier a w
          ≡ note_alarm delivers notifier key info bytes b v =
        ground (
          arith,
          e,
          made info.sequence_no,
          lookup-insert key key info w.onu.onu_alarms_info,
          same_alarm_key_iff key key,
        ) in
      (
        ground (arith, handled, n),
        λ j. ground (
          arith,
          handled,
          n,
          noted key info b bytes v j,
          lookup-insert key j info w.onu.onu_alarms_info,
        ),
        ground (arith, handled),
        ground (arith, handled),
      )

  handled-Noted :
      (a : UniStatusAlarm) (b : List ℕ) (w : World)
      → ((n : ℕ)
          → create_uni_status_alarm notifier a.raise_omci_alarm a.entity_id n
            ≡ (some (pkt a.entity_id n b), b))
      → Noted a.entity_id b w (handle_uni_status_alarm delivers notifier a w)
  unfolding increment_alarm_sequence_number
  handled-Noted a b w made =
      elim (Option-cases (Map.lookup (uni_key a.entity_id) w.onu.onu_alarms_info)) [
        | inl e ↦
            numbered-Noted a b w (record { sequence_no = 1; alarm_bit_map = no_alarms })
              (ground (arith, e)) (ground (arith, e)) made
        | inr (info, e) ↦
            numbered-Noted a b w
              (record info {
                sequence_no = if info.sequence_no == 255 then 1 else u8 (info.sequence_no + 1);
              })
              (ground (arith, e)) (ground (arith, e)) made
      ]

  -- An alarm of a UNI raised and then cleared, while the stream takes indications: two notifications
  -- are sent, oldest first, with the alarm and the next sequence number n of the entity, then without
  -- alarm and the number after it (1 after 255); after the first the entity has an entry with its alarm
  -- and n, after the second it has none, so that its numbers start at 1 again, and the entries of all
  -- other entities are as before.
  pub raise-clear :
      (a c : UniStatusAlarm) (w : World)
      → a.raise_omci_alarm ≡ true
      → c.raise_omci_alarm ≡ false
      → c.entity_id ≡ a.entity_id
      → let n = next_number (Map.lookup (uni_key a.entity_id) w.onu.onu_alarms_info) in
        let v = handle_uni_status_alarm delivers notifier a w in
        let u = handle_uni_status_alarm delivers notifier c v in
        (Map.lookup (uni_key a.entity_id) v.onu.onu_alarms_info
          ≡ some (record { sequence_no = n; alarm_bit_map = bits }))
        × (Map.lookup (uni_key a.entity_id) u.onu.onu_alarms_info ≡ none)
        × ((j : OnuAlarmInfoMapKey)
            → j ≢ uni_key a.entity_id
            → Map.lookup j u.onu.onu_alarms_info ≡ Map.lookup j w.onu.onu_alarms_info)
        × (u.indications
            ≡ w.indications
              ++ notified w.onu (pkt a.entity_id n bits)
                ∷ notified w.onu (pkt a.entity_id (following n) no_alarms)
                ∷ [])
  unfolding create_uni_status_alarm
  raise-clear a c w up down same =
      let v = handle_uni_status_alarm delivers notifier a w in
      let first =
        handled-Noted a bits w
          λ n. ground (arith, up, lib.activates, lib.serializes a.entity_id n bits) in
      let u = handle_uni_status_alarm delivers notifier c v in
      let second : Noted a.entity_id no_alarms v u =
        subst (λ k. Noted k no_alarms v u) same
          (handled-Noted c no_alarms v
            λ n. ground (arith, down, lib.clears, lib.serializes c.entity_id n no_alarms)) in
      let key = uni_key a.entity_id in
      let n = next_number (Map.lookup key w.onu.onu_alarms_info) in
      let kept : Map.lookup key v.onu.onu_alarms_info
          ≡ some (record { sequence_no = n; alarm_bit_map = bits }) =
        ground (arith, first.1 key, lib.some_alarm, same_alarm_key_iff key key) in
      (
        kept,
        ground (arith, second.1 key, no_alarms-equals, same_alarm_key_iff key key),
        λ j ne. ground (arith, first.1 j, second.1 j, same_alarm_key_iff key j),
        ground (
          arith,
          first.0,
          first.2,
          first.3,
          second.0,
          kept,
          append_assoc w.indications (notified w.onu (pkt a.entity_id n bits) ∷ [])
              (notified w.onu (pkt a.entity_id (following n) no_alarms) ∷ []),
        ),
      )
