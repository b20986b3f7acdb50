-- ===== src/Igmp.antt =====
-- The bytes of an IGMP message (internal/bbsim/responders/igmp/igmp.go).
pub mod Checksum
use g_simulator.Prelude.{
  ℕ, zero, suc, ◌+◌, ◌-◌, ◌*◌, ◌/◌, ◌%◌, List, [], ◌∷◌, ltb, if◌then◌else◌, u16, u32,
}

-- The loop of tcpipChecksum over pairs of bytes, with a last byte of its own if there is one; the sum
-- is a uint32.
unfoldable pub add_words : List ℕ → ℕ → ℕ
add_words [] csum = csum
add_words (a ∷ []) csum = u32 (csum + a * 256)
add_words (a ∷ b ∷ rest) csum = add_words rest (u32 (u32 (csum + a * 256) + b))

-- The loop `for csum > 0xffff`, on fuel.
unfoldable pub fold_carries : ℕ → ℕ → ℕ
fold_carries zero csum = csum
fold_carries (suc n) csum =
    let rest = fold_carries n (u32 (csum / 65536 + csum % 65536)) in
    if ltb 65535 csum then rest else csum

-- tcpipChecksum; two rounds of the loop are enough for a uint32.
unfoldable pub tcpip_checksum : List ℕ → ℕ → ℕ
unfolding add_words fold_carries
tcpip_checksum bytes csum = 65535 - u16 (fold_carries 2 (add_words bytes csum))

-- SerializeTo of a message with Version 2 and a checksum; `rest` is the bytes of the group and the zeros after
-- them.
unfoldable pub serialize_v2 : ℕ → ℕ → List ℕ → List ℕ
unfolding tcpip_checksum
serialize_v2 kind max_response_time rest =
    let c = tcpip_checksum (kind ∷ max_response_time ∷ 0 ∷ 0 ∷ rest) 0 in
    kind ∷ max_response_time ∷ c / 256 ∷ c % 256 ∷ rest
