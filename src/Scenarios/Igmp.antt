-- ===== src/Scenarios/Igmp.antt =====
-- The checksum of an IGMPv2 report.
use g_simulator.Prelude.{◌≡◌, refl, List, [], ◌∷◌, ℕ, arith}
use g_simulator.Igmp.{tcpip_checksum, serialize_v2}
use g_simulator.Igmp.Checksum.{serialize_v2-verifies}

serialize_v2-verifies_example : tcpip_checksum (serialize_v2 0x16 0 (224 ∷ 0 ∷ 0 ∷ 22 ∷ [])) 0 ≡ 0
serialize_v2-verifies_example =
    serialize_v2-verifies 0x16 0 (224 ∷ 0 ∷ 0 ∷ 22 ∷ []) (omega arith) (omega arith)
      (omega arith, (omega arith, (omega arith, (omega arith, tt)))) (omega arith)

report : List ℕ
report = serialize_v2 0x16 0 (224 ∷ 0 ∷ 0 ∷ 22 ∷ [])

report-bytes : report ≡ 0x16 ∷ 0 ∷ 0x09 ∷ 0xe9 ∷ 224 ∷ 0 ∷ 0 ∷ 22 ∷ []
unfolding report serialize_v2 tcpip_checksum
report-bytes = refl
